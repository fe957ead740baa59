-- ===== src/Reliable/Settling.antt =====
-- The loop of `ingest_rel_seq` that hands over the buffered packets: it ends.
use telegram.Prelude.{
  eq_nat, eq_string, eq_pair, Option-cases, length, ℕ, zero, suc, ◌≤◌, ◌≡◌, refl, inl, inr, none,
  arith,
}
use telegram.Prelude.Dict.{get, length-pop-lt}
use telegram.Reliable.{ReliableChannel, drain}
use telegram.Reliable.Receiver.{get-empty, drained}

drain-settled :
    (fuel : ℕ) (c : ReliableChannel)
    → length c.buffered ≤ fuel
    → get (drain fuel c).expected (drain fuel c).buffered ≡ none
unfolding drain
drain-settled zero c h = get-empty c.expected c.buffered h
drain-settled (suc fuel) c h = elim (Option-cases (get c.expected c.buffered)) [
  | inl e ↦ rw (e, drain) e
  | inr (v, e) ↦
      rw (e, drain)
        (drain-settled fuel (drained c v) (omega (arith, length-pop-lt c.expected v c.buffered e)))
]

drain-same :
    (fuel more : ℕ) (c : ReliableChannel)
    → length c.buffered ≤ fuel
    → length c.buffered ≤ more
    → drain fuel c ≡ drain more c
unfolding drain
drain-same zero zero c h k = refl
drain-same zero (suc more) c h k = rw (get-empty c.expected c.buffered h, drain) refl
drain-same (suc fuel) zero c h k = rw (get-empty c.expected c.buffered k, drain) refl
drain-same (suc fuel) (suc more) c h k = elim (Option-cases (get c.expected c.buffered)) [
  | inl e ↦ rw (e, drain) refl
  | inr (v, e) ↦
      let fewer = length-pop-lt c.expected v c.buffered e in
      rw (e, drain)
        (drain-same fuel more (drained c v) (omega (arith, fewer)) (omega (arith, fewer)))
]

-- The loop that hands over the buffered packets runs at most once for each buffered packet: with
-- that much fuel or more, the next packet is not in the buffer at the end, which is the loop's exit,
-- and more fuel changes nothing.
pub drain_ends :
    (c : ReliableChannel) (fuel : ℕ)
    → length c.buffered ≤ fuel
    → (get (drain fuel c).expected (drain fuel c).buffered ≡ none)
      × (drain fuel c ≡ drain (length c.buffered) c)
drain_ends c fuel h =
    (drain-settled fuel c h, drain-same fuel (length c.buffered) c h (omega arith))
