-- ===== src/Dlist.antt =====
-- The doubly linked list macros of include/zb_list_macros.h, on pointers: `next` and `prev` are the
-- two link fields of every structure of the list's type, `head` the list variable. The first entry's
-- `prev` points to the last one, and the last entry's `next` is NULL.
pub mod Rep
pub mod Insert
pub mod Remove
use zboss.Base.{Ptr, null, update, Bool, not, ◌==◌, if◌then◌else◌}

pub record Dlist : Type 0 where
  pub head : Ptr
  pub next : Ptr → Ptr
  pub prev : Ptr → Ptr

-- ZB_LIST_GET_TAIL
unfoldable pub get_tail : Dlist → Ptr
get_tail s = if s.head == null then null else s.prev s.head

-- ZB_LIST_PREV_FOR_ITER
unfoldable pub prev_for_iter : Dlist → Ptr → Ptr
prev_for_iter s ent = if s.next (s.prev ent) == null then null else s.prev ent

-- ZB_LIST_ITEM_IN_LIST
unfoldable pub item_in_list : Dlist → Ptr → Bool
item_in_list s ent = not (s.prev ent == null)

-- ZB_LIST_INSERT_HEAD
unfoldable pub insert_head : Dlist → Ptr → Dlist
insert_head s ent =
    if s.head == null
    then record { head = ent; next = update s.next ent s.head; prev = update s.prev ent ent }
    else record {
      head = ent;
      next = update s.next ent s.head;
      prev = update (update s.prev ent (s.prev s.head)) s.head ent;
    }

-- ZB_LIST_INSERT_TAIL
unfoldable pub insert_tail : Dlist → Ptr → Dlist
insert_tail s ent =
    if s.head == null
    then record { head = ent; next = update s.next ent null; prev = update s.prev ent ent }
    else record {
      head = s.head;
      next = update (update s.next ent null) (update s.prev ent (s.prev s.head) s.head) ent;
      prev = update (update s.prev ent (s.prev s.head)) s.head ent;
    }

-- ZB_LIST_INSERT_AFTER
unfoldable pub insert_after : Dlist → Ptr → Ptr → Dlist
insert_after s ent new_ent =
    if ent == null then s else if ent == get_tail s then insert_tail s new_ent else record {
      head = s.head;
      next = update (update s.next new_ent (s.next ent)) ent new_ent;
      prev = update (update s.prev new_ent ent) (update s.next new_ent (s.next ent) ent) new_ent;
    }

-- ZB_LIST_CUT_HEAD, with the entry that it stores in `ent`.
unfoldable pub cut_head : Dlist → Ptr × Dlist
cut_head s = if s.head == null then (s.head, s) else (
  s.head,
  record {
    head = s.next s.head;
    next = s.next;
    prev =
        update
          (if s.next s.head == null then s.prev else update s.prev (s.next s.head) (s.prev s.head))
          s.head null;
  },
)

-- ZB_LIST_REMOVE
unfoldable pub remove : Dlist → Ptr → Dlist
remove s ent =
    let prev' =
      if s.next ent == null
      then update s.prev s.head (s.prev ent)
      else update s.prev (s.next ent) (s.prev ent) in
    if s.prev ent == null
    then s
    else if ent == s.head
    then record { head = s.next ent; next = s.next; prev = update prev' ent null }
    else record {
      head = s.head;
      next = update s.next (prev' ent) (s.next ent);
      prev = update prev' ent null;
    }
