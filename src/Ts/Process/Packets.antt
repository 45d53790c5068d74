-- ===== src/Ts/Process/Packets.antt =====
-- src/ts.c: the inner loop of `ts_process`, as one call of `ts_proc` for each whole packet.
use tsanalyze.Base.{
  ℕ, zero, suc, ◌+◌, ◌-◌, ◌*◌, ◌/◌, ◌%◌, ◌≤◌, ◌<◌, Option, none, some, ◌>>=◌, [], ◌∷◌, Bytes, drop,
  lt→leb_false, le→leb, ◌≡◌, refl, sym, ap, fun_ext, ◌∙◌, arith,
}
use native.Mathlib.Nat.{suc-mul, mod-add-div', mod-lt, div-le_self}
use tsanalyze.Ts.Process.{take_packets}

drop-nil : (k : ℕ) → drop {A = ℕ} k [] ≡ []
drop-nil zero = refl
drop-nil (suc k) = refl

drop-drop : (m n : ℕ) (xs : Bytes) → drop m (drop n xs) ≡ drop (n + m) xs
drop-drop m zero xs = ap (λ k. drop k xs) {x = m} {y = 0 + m} (omega arith)
drop-drop m (suc n) [] = drop-nil m ∙ sym (drop-nil (suc n + m))
drop-drop m (suc n) (x ∷ xs) =
    drop-drop m n xs ∙ ap (λ k. drop k (x ∷ xs)) {x = suc (n + m)} {y = suc n + m} (omega arith)

bind_assoc :
    {A B C : Type 0} (o : Option A) (f : A → Option B) (g : B → Option C)
    → (o >>= λ a. f a >>= g) ≡ (o >>= f >>= g)
bind_assoc none f g = refl
bind_assoc (some a) f g = refl

module _ {S : Type 0} (proc : Bytes → ℕ → S → Option S) (n : ℕ) where
  -- `count` packets of the length `n`, one behind the other.
  abbrev pub each_packet : ℕ → Bytes → S → Option S
  each_packet zero ptr s = some s
  each_packet (suc count) ptr s = proc ptr n s >>= each_packet count (drop n ptr)

  take_packets-few :
      (fuel len : ℕ) (ptr : Bytes) (s : S)
      → len < n
      → take_packets proc n fuel ptr len s ≡ some (ptr, len, s)
  unfolding take_packets
  take_packets-few zero len ptr s few = rw (lt→leb_false n len few) refl
  take_packets-few (suc fuel) len ptr s few = rw (lt→leb_false n len few) refl

  take_packets-more :
      (fuel len : ℕ) (ptr : Bytes) (s : S)
      → n ≤ len
      → take_packets proc n (suc fuel) ptr len s
        ≡ (proc ptr n s >>= take_packets proc n fuel (drop n ptr) (len - n))
  unfolding take_packets
  take_packets-more fuel len ptr s more = rw (le→leb n len more) refl

  count_packets :
      (count r fuel : ℕ) (ptr : Bytes) (s : S)
      → r < n
      → count ≤ fuel
      → take_packets proc n fuel ptr (count * n + r) s
        ≡ (each_packet count ptr s >>= λ s'. some (drop (count * n) ptr, r, s'))
  count_packets zero r fuel ptr s small enough =
      let none_left : 0 * n + r ≡ r = omega arith in
      let no_bytes : 0 ≡ 0 * n = omega arith in
      ap (λ k. take_packets proc n fuel ptr k s) none_left
      ∙ take_packets-few fuel r ptr s small
      ∙ ap (λ k. some (drop k ptr, r, s)) no_bytes
  count_packets (suc count) r zero ptr s small enough = absurd (omega arith)
  count_packets (suc count) r (suc fuel) ptr s small enough =
      let one_more = suc-mul count n in
      let left : suc count * n + r - n ≡ count * n + r = omega (arith, one_more) in
      let reached : n + count * n ≡ suc count * n = omega (arith, one_more) in
      let rest : S → Option (Bytes × ℕ × S) = λ s'. some (drop (count * n) (drop n ptr), r, s') in
      take_packets-more fuel (suc count * n + r) ptr s (omega (arith, one_more))
      ∙ ap (λ k. proc ptr n s >>= take_packets proc n fuel (drop n ptr) k) left
      ∙ ap (λ f. proc ptr n s >>= f)
          (fun_ext (λ s₁. count_packets count r fuel (drop n ptr) s₁ small (omega arith)))
      ∙ bind_assoc (proc ptr n s) (each_packet count (drop n ptr)) rest
      ∙ ap (λ p. each_packet (suc count) ptr s >>= λ s'. some (p, r, s'))
          (drop-drop (count * n) n ptr ∙ ap (λ k. drop k ptr) reached)

  -- The inner loop ends within `len` rounds: it calls `ts_proc` on each whole packet of the block,
  -- in order, and faults only where `ts_proc` does; what is left is the remainder of the length.
  pub take_packets_lem :
      (ptr : Bytes) (len : ℕ) (s : S)
      → 0 < n
      → take_packets proc n len ptr len s
        ≡ (each_packet (len / n) ptr s >>= λ s'. some (drop (len / n * n) ptr, len % n, s'))
  take_packets_lem ptr len s positive =
      let split : len ≡ len / n * n + len % n = omega (arith, mod-add-div' len n) in
      ap (λ k. take_packets proc n len ptr k s) split
      ∙ count_packets (len / n) (len % n) len ptr s (mod-lt len positive) (div-le_self len n)
