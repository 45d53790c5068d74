-- ===== src/Dvb/Entries.antt =====
-- src/dvb_si.c: the loop over the entries of a table, which `parse_nit`, `parse_bat` and `parse_sdt`
-- share but for how a round reads its entry.
use tsanalyze.Base.{
  ℕ, zero, suc, ◌-◌, ◌≤◌, ◌<◌, Bool, true, false, Option, none, some, ◌>>=◌, List, [], ◌∷◌, ◌++◌,
  map, length, length-append, drop, drop-append_length, Bytes, ◌≡◌, refl, ap, ◌∙◌, arith,
}
use mathlib.Core.List.{append_assoc}
use tsanalyze.Table.Pat.{PatResult, parsed, out_of_memory}

-- Entries one behind the other, by the bytes of one.
module _ {E : Type 0} (encode_one : E → Bytes) where
  abbrev pub encode : List E → Bytes
  encode [] = []
  encode (e ∷ es) = encode_one e ++ encode es

-- `read` reads an entry, `size` says how many bytes it took, its descriptors included.
module _ {N : Type 0} (read : Bytes → Option N) (size : N → ℕ) where
  -- The loop with `section_len` bytes to go: one below zero ends it as 0 does. `memory` says whether
  -- `calloc` gives the nodes. A round takes at least one byte, so `section_len` rounds are enough.
  unfoldable pub nodes_from : Bool → ℕ → Bytes → ℕ → Option (PatResult × List N)
  nodes_from memory fuel pdata zero = some (parsed, [])
  nodes_from memory zero pdata (suc len) = none
  nodes_from false (suc fuel) pdata (suc len) = some (out_of_memory, [])
  nodes_from true (suc fuel) pdata (suc len) = do
    n ← read pdata
    (result, later) ← nodes_from true fuel (drop (size n) pdata) (suc len - size n)
    some (result, n ∷ later)

  nodes_from-zero :
      (memory : Bool) (fuel : ℕ) (pdata : Bytes)
      → nodes_from memory fuel pdata 0 ≡ some (parsed, [])
  unfolding nodes_from
  nodes_from-zero true zero pdata = refl
  nodes_from-zero false zero pdata = refl
  nodes_from-zero true (suc fuel) pdata = refl
  nodes_from-zero false (suc fuel) pdata = refl

  nodes_from-step :
      (fuel len : ℕ) (pdata : Bytes) (n : N) (later : List N) (result : PatResult)
      → read pdata ≡ some n
      → nodes_from true fuel (drop (size n) pdata) (suc len - size n) ≡ some (result, later)
      → nodes_from true (suc fuel) pdata (suc len) ≡ some (result, n ∷ later)
  unfolding nodes_from
  nodes_from-step fuel len pdata n later result at rest = rw (at, rest) refl

  -- Entries by the standard: the bytes of one and the node it is read as.
  module _ {E : Type 0} (encode_one : E → Bytes) (node_of : E → N) where
    pub record IsEntry (e : E) : Type 0 where
      pub some_bytes : 0 < length (encode_one e)
      pub sized : size (node_of e) ≡ length (encode_one e)
      pub read_back : (rest : Bytes) → read (encode_one e ++ rest) ≡ some (node_of e)

    abbrev pub AreEntries : List E → Type 0
    AreEntries [] = Unit {0}
    AreEntries (e ∷ es) = IsEntry e × AreEntries es

    -- Over the bytes of entries that are each read back, the loop reads to their end within its
    -- rounds and makes the node of each, in order.
    pub nodes_from-encode :
        (es : List E) (rest : Bytes) (fuel : ℕ)
        → AreEntries es
        → length (encode encode_one es) ≤ fuel
        → nodes_from true fuel (encode encode_one es ++ rest) (length (encode encode_one es))
          ≡ some (parsed, map node_of es)
    nodes_from-encode [] rest fuel ok enough = nodes_from-zero true fuel rest
    nodes_from-encode (e ∷ es) rest zero ok enough =
        absurd (omega (arith, ok.0.some_bytes, length-append (encode_one e) (encode encode_one es)))
    nodes_from-encode (e ∷ es) rest (suc fuel) ok enough =
        let one = encode_one e in
        let n = size (node_of e) in
        let len = length (encode encode_one (e ∷ es)) - 1 in
        let both = length-append one (encode encode_one es) in
        let whole : length (encode encode_one (e ∷ es)) ≡ suc len =
          omega (arith, ok.0.some_bytes, both) in
        let left : suc len - n ≡ length (encode encode_one es) =
          omega (arith, ok.0.sized, ok.0.some_bytes, both) in
        let behind : drop n (one ++ (encode encode_one es ++ rest)) ≡ encode encode_one es ++ rest =
          ap (λ k. drop k (one ++ (encode encode_one es ++ rest))) ok.0.sized
          ∙ drop-append_length one (encode encode_one es ++ rest) in
        ap (λ l. nodes_from true (suc fuel) l (length (encode encode_one (e ∷ es))))
          (append_assoc one (encode encode_one es) rest)
        ∙ ap (λ k. nodes_from true (suc fuel) (one ++ (encode encode_one es ++ rest)) k) whole
        ∙ nodes_from-step fuel len (one ++ (encode encode_one es ++ rest)) (node_of e)
            (map node_of es) parsed (ok.0.read_back (encode encode_one es ++ rest))
            (ap (λ l. nodes_from true fuel l (suc len - n)) behind
              ∙ ap (λ k. nodes_from true fuel (encode encode_one es ++ rest) k) left
              ∙ nodes_from-encode es rest fuel ok.1 (omega (arith, ok.0.some_bytes, both)))
