-- ===== src/Filter/Tests.antt =====
-- src/filter.c: a registry of two filters, and the dispatch of a section by it.
use tsanalyze.Base.{ℕ, ◌<◌, ◌>>=◌, false, Option, some, List, [], ◌∷◌}
use tsanalyze.Base.{Bytes, IsBytes, replicate, ◌≡◌, refl, arith}
use tsanalyze.Filter.{FilterSlot, FilterHead, Filters, ok, filter_rebuild, no_slot}
use tsanalyze.Filter.Proc.{offer_all, filter_proc}
use tsanalyze.Filter.Scan.{IsSlot}
use tsanalyze.Filter.Registry.{filter_rebuild_idem}
use tsanalyze.Filter.Equivalence.{filter_proc-offer_all}

abbrev slot : ℕ → FilterSlot ℕ
slot tid = record {
  pid = 0x11;
  para = record {
    depth = 1;
    coff = tid ∷ replicate 7 0;
    mask = 0xFF ∷ replicate 7 0;
    negate = replicate 8 0;
  };
  callback = some tid;
}

-- The filters of the SDT and the BAT.
abbrev head : FilterHead ℕ
head = record { cap = 4; slots = slot 0x42 ∷ slot 0x4A ∷ []; map = λ _. no_slot; multi = false }

abbrev registry : Filters ℕ
registry pid = filter_rebuild head

-- A callback that notes its call.
abbrev note : ℕ → ℕ → Bytes → ℕ → List ℕ → Option (List ℕ)
note cb pid buf len log = some (cb ∷ log)

slot-IsSlot : (tid : ℕ) → tid < 256 → IsSlot (slot tid)
slot-IsSlot tid byte = record {
  coff_long = omega arith;
  mask_long = omega arith;
  coff_bytes = (byte, zeros);
}
  where
    b : 0 < 256
    b = omega arith

    zeros : IsBytes (replicate 7 0)
    zeros = (b, (b, (b, (b, (b, (b, (b, tt)))))))

filter_proc-offer_all_example : filter_proc (λ _. registry) note 0x11 (0x4A ∷ []) 1 [] ≡ (
    offer_all (λ _. registry) note 0x11 (0x4A ∷ []) 1 (slot 0x42 ∷ slot 0x4A ∷ []) [] >>= λ log.
    some (ok, log))
unfolding filter_rebuild
filter_proc-offer_all_example =
    filter_proc-offer_all (λ _. registry) note 0x11 0x4A [] 1 (omega arith) (λ cb w w' ran. refl) []
      (filter_rebuild_idem head) (omega arith)
      (slot-IsSlot 0x42 (omega arith), (slot-IsSlot 0x4A (omega arith), tt))

dispatch_run : filter_proc (λ _. registry) note 0x11 (0x4A ∷ []) 1 [] ≡ some (ok, 0x4A ∷ [])
unfolding filter_proc filter_rebuild
dispatch_run = refl
