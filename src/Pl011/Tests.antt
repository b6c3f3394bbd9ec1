-- ===== src/Pl011/Tests.antt =====
-- The serial port on line 33 of the interrupt controller.
use icewind.Common.{◌≡◌, refl, inl, inr, [], ◌∷◌, arith, Returns, ok}
use icewind.Gic
use icewind.Gic.Level.{controller}
use icewind.Gic.Serve.{new-IsValid}
use icewind.Pl011.Defs.{Pl011, new, read, write}
use icewind.Pl011.Driven.{IsDriven, half_word, Follows, write-Follows}

abbrev port : Pl011 controller
port = record (new controller 33 Gic.new) { irq_mask = 0x20 }

port-IsDriven : IsDriven controller port
unfolding new Gic.new
port-IsDriven = record { ready = new-IsValid; in_range = omega arith; driven = refl }

write-Follows_example :
    Returns (write controller port 0x038 (0x20 ∷ 0 ∷ [])) (Follows controller port)
write-Follows_example =
    write-Follows controller port port-IsDriven 0x038 (0x20 ∷ 0 ∷ [])
      (half_word 0x20 0 (inr (inr (inr (inr (inr (inl refl)))))))

identifies : read controller port 0xfe0 (7 ∷ 8 ∷ []) ≡ ok (0x11 ∷ 8 ∷ [])
unfolding read new
identifies = refl

ready_to_send : read controller port 0x018 (0 ∷ []) ≡ ok (0xc0 ∷ [])
unfolding read new
ready_to_send = refl
