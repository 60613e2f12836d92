-- ===== src/History/Writes.antt =====
-- What the application writes, and the lists that the host returns, keep the adapter well.
use tap_windows.Base.{
  ℕ, ◌+◌, ◌-◌, ◌≡◌, refl, sym, ap, subst, arith, Bool, Bool-cases, inl, inr, false, not, ◌&&◌, List,
  [], ◌∷◌, ◌++◌, length, if◌then◌else◌, ◌==◌, ltb, leb,
}
use tap_windows.Proto.{eth_bytes, eth_size, ip_size}
use tap_windows.Ndis.{Irp, NtStatus, RxNbl}
use tap_windows.Adapter.{Adapter, read_and_write_ready, send_and_receive_ready, is_success}
use tap_windows.Receive.{Pool, with_nbl, padded, tap_min_frame_size}
use tap_windows.Transmit.Vlan.{Stripped, strip_8021q}
use tap_windows.Write.{
  Answer, ulong_max, out_of_resources, shared_send_packet, passes_filter, filter_has, stripped_irp,
  write_ethernet, user_header, write_ip, write_mapped, complete_irp, is_pending, finish_write,
  tap_device_write, complete_receive_nbl, return_net_buffer_lists, pick_all, host_returns,
}
use tap_windows.Frames.{type_directed, type_promiscuous}
use tap_windows.Transmit.Read.Pended.{one, reads}
use tap_windows.Adapter.Irps.{IrpCsq}
use tap_windows.Write.Returned.{host_returns-known}
use tap_windows.Write.Delivered.{sent_nbl}
use tap_windows.History.Counters.{IsTrue, IsNumbered}
use tap_windows.History.Well.{IsWell, IsWell-of, if-Keeps, config_of}
use tap_windows.History.Reads.{with_one}

module _ (t : ℕ → ℕ) (irp : Irp) where
  -- The adapter of an answer is well: it has the request if the answer is pending, and otherwise the
  -- request is in the answer.
  record Leaves (r : Answer) : Type 0 where
    same : r.1.irp_id ≡ irp.irp_id
    well : IsWell (if is_pending r.0 then with_one irp t else t) r.2

  quiet-Leaves :
      (status : NtStatus) (changed : Irp) (a : Adapter)
      → is_pending status ≡ false
      → changed.irp_id ≡ irp.irp_id
      → IsWell t a
      → Leaves (status, changed, a)
  quiet-Leaves status changed a e same w = record { same = same; well = rw e w }

  sent-Leaves :
      (pool : Pool) (a : Adapter) (changed : Irp) (p : Stripped) (frame : List ℕ)
      → changed.irp_id ≡ irp.irp_id
      → IsWell t a
      → Leaves (NtStatus.pending, changed, with_nbl a (sent_nbl pool changed p frame))
  sent-Leaves pool a changed p frame same w = record {
    same = same;
    well =
        IsWell-of a (with_nbl a (sent_nbl pool changed p frame)) w refl w.packets w.pending
          (omega (arith, w.counted))
          (λ id.
            let mine : one id changed ≡ one id irp =
              ap (λ (n : ℕ). if n == id then 1 else 0) same in
            omega (arith, w.requests id, mine));
  }

  shared-Leaves :
      (pool : Pool) (a : Adapter) (changed : Irp) (p : Stripped) (prefix : List ℕ)
      → changed.irp_id ≡ irp.irp_id
      → IsWell t a
      → Leaves (shared_send_packet pool a changed p prefix)
  unfolding shared_send_packet
  shared-Leaves pool a changed p prefix same w =
      let out = out_of_resources a changed in
      let failed =
        quiet-Leaves NtStatus.insufficient_resources (record changed { information = 0 }) a refl
          same w in
      let full_length = length p.packet + length prefix in
      if-Keeps Leaves (ltb (ulong_max - length p.packet) (length prefix)) out _ failed (
        if-Keeps Leaves (ltb full_length tap_min_frame_size) _ _
          (if-Keeps Leaves (pool.inject_buffer && pool.inject_mdl && pool.inject_nbl) _ out
            (sent-Leaves pool a changed p (padded (prefix ++ p.packet)) same w) failed)
          (if-Keeps Leaves (ltb 0 (length prefix) && not pool.inject_mdl) out _ failed (
            if-Keeps Leaves (not pool.inject_nbl) out _ failed
              (sent-Leaves pool a changed p (prefix ++ p.packet) same w))))

  mapped-Leaves :
      (pool : Pool) (a : Adapter) (changed : Irp)
      → changed.irp_id ≡ irp.irp_id
      → IsWell t a
      → Leaves (write_mapped pool a changed)
  unfolding write_mapped write_ethernet write_ip
  mapped-Leaves pool a changed same w =
      let packet = changed.system_buffer in
      let p = strip_8021q packet in
      let ip : Stripped = record { packet = packet; priority = 0; vlan = 0 } in
      let dropped = quiet-Leaves NtStatus.success changed a refl same w in
      if-Keeps Leaves (not (is_success (send_and_receive_ready a))) _ _ dropped (
        if-Keeps Leaves (not a.tun && leb eth_size (length packet)) _ _
          (if-Keeps Leaves (passes_filter a p.packet) _ _
            (shared-Leaves pool a (stripped_irp changed) p [] same w)
            (quiet-Leaves NtStatus.success (stripped_irp changed) a refl same w))
          (if-Keeps Leaves (a.tun && leb ip_size (length packet)) _ _
            (if-Keeps Leaves (filter_has a (type_directed + type_promiscuous)) _ _
              (shared-Leaves pool a changed ip (eth_bytes (user_header a packet)) same w) dropped)
            (quiet-Leaves NtStatus.buffer_too_small (record changed { information = 0 }) a refl same
              w)))

  finish-IsWell : (r : Answer) → Leaves r → IsWell (with_one irp t) (finish_write r).1
  unfolding finish_write
  finish-IsWell r h = elim (Bool-cases (is_pending r.0)) [
    | inl pending ↦
        rw pending
          (subst (λ (b : Bool). IsWell (if b then with_one irp t else t) r.2) pending h.well)
    | inr other ↦
        let w = subst (λ (b : Bool). IsWell (if b then with_one irp t else t) r.2) other h.well in
        rw other (
          IsWell-of r.2 (complete_irp r.2 r.1 r.0) w refl w.packets w.pending w.counted (λ id.
            let mine : one id r.1 ≡ one id irp = ap (λ (n : ℕ). if n == id then 1 else 0) h.same in
            omega (arith, w.requests id, mine)))
  ]

  pub write-IsWell :
      (pool : Pool) (a : Adapter) (has_mdl mapped : Bool)
      → IsWell t a
      → IsWell (with_one irp t) (tap_device_write pool a irp has_mdl mapped).1
  unfolding tap_device_write
  write-IsWell pool a has_mdl mapped w =
      let P : NtStatus × Adapter → Type 0 = λ r. IsWell (with_one irp t) r.1 in
      let asked = record irp { information = length irp.system_buffer } in
      let failed : (status : NtStatus)
          → is_pending status ≡ false
          → IsWell (with_one irp t) (finish_write (status, record irp { information = 0 }, a)).1 =
        λ status e.
          finish-IsWell _ (quiet-Leaves status (record irp { information = 0 }) a e refl w) in
      if-Keeps P (not (read_and_write_ready a)) _ _ (failed NtStatus.cancelled refl) (
        if-Keeps P (not has_mdl) _ _ (failed NtStatus.invalid_parameter refl) (
          if-Keeps P (not mapped) _ _ (failed NtStatus.insufficient_resources refl)
            (finish-IsWell (write_mapped pool a asked) (mapped-Leaves pool a asked refl w))))

-- What the lists that come back leave alone
return-config :
    (nbls : List RxNbl) (a : Adapter) → config_of (return_net_buffer_lists a nbls) ≡ config_of a
unfolding return_net_buffer_lists complete_receive_nbl
return-config [] a = refl
return-config (nbl ∷ nbls) a = return-config nbls (complete_receive_nbl a nbl)

return-packets :
    (nbls : List RxNbl) (a : Adapter)
    → (return_net_buffer_lists a nbls).send_packet_queue ≡ a.send_packet_queue
unfolding return_net_buffer_lists complete_receive_nbl
return-packets [] a = refl
return-packets (nbl ∷ nbls) a = return-packets nbls (complete_receive_nbl a nbl)

pub return-pending :
    (nbls : List RxNbl) (a : Adapter)
    → (return_net_buffer_lists a nbls).pending_read_irp_queue ≡ a.pending_read_irp_queue
unfolding return_net_buffer_lists complete_receive_nbl
return-pending [] a = refl
return-pending (nbl ∷ nbls) a = return-pending nbls (complete_receive_nbl a nbl)

pub returns-IsWell :
    {t : ℕ → ℕ} → (a : Adapter) (places : List ℕ) → IsWell t a → IsWell t (host_returns a places)
unfolding host_returns
returns-IsWell a places w =
    let (chosen, left) = pick_all places a.in_flight in
    let b = record a { in_flight = left } in
    let pending = return-pending chosen b in
    IsWell-of a (host_returns a places) w (return-config chosen b)
      (subst IsTrue (sym (return-packets chosen b)) w.packets)
      (subst IsNumbered (sym pending) w.pending) (host_returns-known a places 0 w.counted).1
      (λ id. omega (
        arith,
        w.requests id,
        (host_returns-known a places id w.counted).0,
        ap (λ (q : IrpCsq). reads id q.queue) pending,
      ))
