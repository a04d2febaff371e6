-- ===== src/Tests/Words.antt =====
-- Concrete check sequences, times and timers.
use zboss.Base.{ℕ, ◌≤◌, ◌<◌, ◌≡◌, refl, arith, true, false, ◌↔◌, List, [], ◌∷◌}
use zboss.Fcs.{fcs_loop, fcs_add, fcs_step, table}
use zboss.Fcs.Equiv.{remainder, fcs_loop-remainder}
use zboss.Fcs.Residue.{fcs_loop-fcs_add}
use zboss.Time.{wrap_sub, time_ge}
use zboss.Time.Window.{time_ge-neither_iff}
use zboss.Timer.{Timer}

-- An acknowledgement frame without its check sequence.
abbrev ack_frame : List ℕ
ack_frame = 2 ∷ 0 ∷ 77 ∷ []

ack_frame_crc : fcs_loop 0 ack_frame ≡ 11353
unfolding fcs_loop fcs_step table
ack_frame_crc = refl

fcs_loop-remainder_example :
    (fcs_loop 0 ack_frame ≡ remainder 0 ack_frame) × (fcs_loop 0 ack_frame < 65536)
fcs_loop-remainder_example =
    fcs_loop-remainder ack_frame 0 (omega arith) (omega arith, (omega arith, (omega arith, tt)))

fcs_loop-fcs_add_example : fcs_loop 0 (fcs_add ack_frame) ≡ 0
fcs_loop-fcs_add_example =
    fcs_loop-fcs_add ack_frame (omega arith, (omega arith, (omega arith, tt)))

time_ge-neither_iff_example :
    ((time_ge 32770 2 ≡ false) × (time_ge 2 32770 ≡ false))
    ↔ ((32767 ≤ wrap_sub 32770 2) × (wrap_sub 32770 2 ≤ 32769))
time_ge-neither_iff_example = time_ge-neither_iff 32770 2 (omega arith) (omega arith)

-- A timer that is to stop 200 ticks from now.
abbrev waiting : Timer
waiting = record { timer_stop = 164; timer = 65500; started = true }
