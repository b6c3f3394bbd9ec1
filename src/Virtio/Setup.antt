-- ===== src/Virtio/Setup.antt =====
-- How a driver sets a queue up: its addresses in halves, then the ready register.
use icewind.Common.{
  List, ℕ, ◌+◌, ◌*◌, ◌^◌, ◌<◌, ◌≡◌, refl, ap, true, Outcome, ◌>>=◌, ==_of_eq, Returns,
}
use icewind.Devices.{IrqController}
use icewind.Virtio.Defs.{
  Virtio, set_descriptor_low, set_descriptor_high, set_available_low, set_available_high,
  set_used_low, set_used_high, set_queue_ready, write_register, change_queue,
}
use icewind.Virtio.Addresses.{with_high-with_low}

module _ (I : IrqController) (S : Type 0) (to_host : ℕ → ℕ)
    (read_callback : S → ℕ → ℕ → Outcome (S × List ℕ)) (write_callback : S → List ℕ → ℕ → Outcome S)
    (rounds : ℕ) where
  -- The six writes of the addresses, each half once, and the write of the ready register.
  abbrev pub set_up :
      (descriptor_low descriptor_high available_low available_high used_low used_high : ℕ)
      → Virtio I S
      → Outcome (Virtio I S)
  set_up descriptor_low descriptor_high available_low available_high used_low used_high d =
      write_register I S to_host read_callback write_callback rounds set_descriptor_low
        descriptor_low d
      >>= write_register I S to_host read_callback write_callback rounds set_descriptor_high
          descriptor_high
      >>= write_register I S to_host read_callback write_callback rounds set_available_low
          available_low
      >>= write_register I S to_host read_callback write_callback rounds set_available_high
          available_high
      >>= write_register I S to_host read_callback write_callback rounds set_used_low used_low
      >>= write_register I S to_host read_callback write_callback rounds set_used_high used_high
      >>= write_register I S to_host read_callback write_callback rounds set_queue_ready 1

  -- The queue is ready at the host addresses of the three guest addresses, from its first entry on.
  pub record IsSetUp (descriptor available used : ℕ) (d d' : Virtio I S) : Type 0 where
    pub ready : d'.host.queue.ready ≡ true
    pub descriptor_hva : d'.host.queue.descriptor_hva ≡ to_host descriptor
    pub available_hva : d'.host.queue.available_hva ≡ to_host available
    pub used_hva : d'.host.queue.used_hva ≡ to_host used
    pub prev_idx : d'.host.queue.prev_idx ≡ 0
    pub queue_num : d'.host.queue.queue_num ≡ d.host.queue.queue_num

  -- When queue 0 is selected and the addresses are words of 64 bits, writes of both halves of
  -- the three addresses and of the ready register return, and leave the queue ready, at the host
  -- addresses of exactly the addresses that the halves make up, from its first entry on and with
  -- its size unchanged.
  pub set_up-IsSetUp :
      (d : Virtio I S) (dl dh al ah ul uh : ℕ)
      → d.queue_select ≡ 0
      → d.host.queue.descriptor_gpa < 2 ^ 64
      → d.host.queue.available_gpa < 2 ^ 64
      → d.host.queue.used_gpa < 2 ^ 64
      → dl < 2 ^ 32
      → dh < 2 ^ 32
      → al < 2 ^ 32
      → ah < 2 ^ 32
      → ul < 2 ^ 32
      → uh < 2 ^ 32
      → Returns
          (set_up dl dh al ah ul uh d)
          (IsSetUp (dl + dh * 2 ^ 32) (al + ah * 2 ^ 32) (ul + uh * 2 ^ 32) d)
  unfolding write_register change_queue
  set_up-IsSetUp d dl dh al ah ul uh selected hd ha hu hdl hdh hal hah hul huh =
      let first = ==_of_eq d.queue_select 0 selected in
      simp first (record {
        ready = refl;
        descriptor_hva =
            ap to_host (with_high-with_low d.host.queue.descriptor_gpa dl dh hd hdl hdh).0;
        available_hva =
            ap to_host (with_high-with_low d.host.queue.available_gpa al ah ha hal hah).0;
        used_hva = ap to_host (with_high-with_low d.host.queue.used_gpa ul uh hu hul huh).0;
        prev_idx = refl;
        queue_num = refl;
      })
