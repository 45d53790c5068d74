-- ===== src/Filter.antt =====
-- src/filter.c: the per-PID registry of filters and the dispatch of a section to their callbacks.
-- `pid_filter` is a function of the PID. The slots of a head are the list of `slots[0..num)`, so
-- `num` is its length; a `filter_t *` is a PID and an index. A callback is a value of `Cb`.
pub mod Dispatch
pub mod Registry
pub mod Proc
pub mod Scan
pub mod Equivalence
mod Tests
use tsanalyze.Base.{ℕ, zero, suc, ◌+◌, ◌-◌, ◌*◌, bit_and, ◌==◌, ltb, leb, if◌then◌else◌, ◌&&◌}
use tsanalyze.Base.{Bool, true, false, Option, none, some, List, [], ◌∷◌, ◌++◌, ◌>>=◌, Bytes, read8}
use tsanalyze.Base.{not, memcpy, get_elem?, get_or, set, take, length, replicate, u16, update}

abbrev pub max_filter_depth : ℕ
max_filter_depth = 8

abbrev pub num_filter_max : ℕ
num_filter_max = 4096

-- `filter_param_t`; the arrays have `max_filter_depth` entries.
pub record FilterParam : Type 0 where
  pub depth : ℕ
  pub coff : Bytes
  pub mask : Bytes
  pub negate : Bytes

-- What a function returns: 0 or -1.
pub data Status : Type 0 where
  ok failed : Status

-- `filter_t`; no callback is the null pointer.
pub record FilterSlot (Cb : Type 0) : Type 0 where
  pub pid : ℕ
  pub para : FilterParam
  pub callback : Option Cb

pub record FilterHead (Cb : Type 0) : Type 0 where
  pub cap : ℕ
  pub slots : List (FilterSlot Cb)
  pub map : ℕ → ℕ
  pub multi : Bool

-- A `filter_t *` that is not null: a slot of the head of a PID.
pub record Handle : Type 0 where
  pub pid : ℕ
  pub index : ℕ

abbrev pub no_slot : ℕ
no_slot = 0xFFFF

abbrev zeros : Bytes
zeros = replicate max_filter_depth 0

abbrev pub zero_param : FilterParam
zero_param = record { depth = 0; coff = zeros; mask = zeros; negate = zeros }

-- `memcmp(a, b, n) == 0`
same_bytes : ℕ → Bytes → Bytes → Bool
same_bytes zero a b = true
same_bytes (suc n) (x ∷ a) (y ∷ b) = x == y && same_bytes n a b
same_bytes (suc n) _ _ = false

-- The test of the loop body of `filter_lookup`.
unfoldable pub same_param : FilterParam → FilterParam → Bool
unfolding same_bytes
same_param p q =
    p.depth == q.depth
    && (same_bytes q.depth p.coff q.coff
        && (same_bytes q.depth p.mask q.mask && same_bytes q.depth p.negate q.negate))

-- The loop of `filter_match` at index `i` with `left` rounds to go.
match_from : ℕ → ℕ → FilterParam → Bytes → Option Bool
match_from zero i p buf = some true
match_from (suc left) i p buf =
    let rest = match_from left (i + 1) p buf in
    do
      x ← read8 buf i
      m ← read8 p.mask i
      c ← read8 p.coff i
      if bit_and x m == bit_and m c then rest else some false

unfoldable pub filter_match : FilterParam → Bytes → Option Bool
unfolding match_from
filter_match p buf = match_from p.depth 0 p buf

abbrev pub Filters : Type 0 → Type 0
Filters Cb = ℕ → FilterHead Cb

abbrev pub grown_cap : ℕ → ℕ
grown_cap c = if c == 0 then 4 else c * 2

-- The three `memcpy` calls; `none` if the depth runs over an array.
unfoldable pub copy_param : FilterParam → FilterParam → Option FilterParam
copy_param dst p = do
  coff' ← memcpy dst.coff 0 p.coff p.depth
  mask' ← memcpy dst.mask 0 p.mask p.depth
  negate' ← memcpy dst.negate 0 p.negate p.depth
  some (record { depth = p.depth; coff = coff'; mask = mask'; negate = negate' })

module _ {Cb : Type 0} where
  abbrev pub table_id : FilterSlot Cb → ℕ
  table_id s = get_or s.para.coff 0 0

  -- `depth == 1 && mask[0] == 0xFF`
  abbrev pub is_single : FilterSlot Cb → Bool
  is_single s = s.para.depth == 1 && get_or s.para.mask 0 0 == 0xFF

  -- The body of the loop of `filter_rebuild`, at slot `s` with index `i`.
  unfoldable pub rebuild_slot : FilterSlot Cb → ℕ → FilterHead Cb → FilterHead Cb
  rebuild_slot s i hd =
      if is_single s
      then if hd.map (table_id s) == no_slot
        then record hd { map = update hd.map (table_id s) (u16 i) }
        else record hd { multi = true }
      else record hd { multi = true }

  unfoldable pub rebuild_from : List (FilterSlot Cb) → ℕ → FilterHead Cb → FilterHead Cb
  rebuild_from [] i hd = hd
  rebuild_from (s ∷ rest) i hd = rebuild_from rest (i + 1) (rebuild_slot s i hd)

  unfoldable pub filter_rebuild : FilterHead Cb → FilterHead Cb
  unfolding rebuild_from rebuild_slot
  filter_rebuild hd = rebuild_from hd.slots 0 (record hd { map = λ _. no_slot; multi = false })

  -- `map` and `multi` are left as they are.
  unfoldable pub filter_init : Filters Cb → Filters Cb
  filter_init fs pid = record (fs pid) { cap = 0; slots = [] }

  abbrev pub fresh_slot : ℕ → FilterSlot Cb
  fresh_slot pid = record { pid = pid; para = zero_param; callback = none }

  -- `memory` says whether `realloc` gives the memory.
  unfoldable pub filter_alloc : Bool → ℕ → Filters Cb → Option Handle × Filters Cb
  filter_alloc memory pid fs =
      let hd = fs pid in
      let num = length hd.slots in
      if leb num_filter_max num
      then (none, fs)
      else if leb hd.cap num && not memory
      then (none, fs)
      else (
        some (record { pid = pid; index = num }),
        update fs pid (record hd {
          cap = if leb hd.cap num then grown_cap hd.cap else hd.cap;
          slots = hd.slots ++ (fresh_slot pid ∷ []);
        }),
      )

  abbrev pub put_slot : Handle → FilterSlot Cb → Filters Cb → Filters Cb
  put_slot f s fs = update fs f.pid (record (fs f.pid) { slots = set (fs f.pid).slots f.index s })

  abbrev pub rebuild_at : ℕ → Filters Cb → Filters Cb
  rebuild_at pid fs = update fs pid (filter_rebuild (fs pid))

  -- With a null `p` only the callback is set.
  unfoldable pub filter_set :
      Option Handle → Option FilterParam → Cb → Filters Cb → Option (Status × Filters Cb)
  unfolding copy_param
  filter_set none p func fs = some (failed, fs)
  filter_set (some f) p func fs = do
    s ← get_elem? (fs f.pid).slots f.index
    para' ← elim p [ none ↦ some s.para | some q ↦ copy_param s.para q ]
    let s' : FilterSlot Cb = record s { para = para'; callback = some func }
    some (ok, rebuild_at s.pid (put_slot f s' fs))

  abbrev pub last_slot : List (FilterSlot Cb) → FilterSlot Cb → FilterSlot Cb
  last_slot slots s = get_or slots (length slots - 1) s

  -- `slots[i] = slots[num - 1]; num--`
  unfoldable pub swap_pop : List (FilterSlot Cb) → ℕ → FilterSlot Cb → List (FilterSlot Cb)
  swap_pop slots i s = take (length slots - 1) (set slots i (last_slot slots s))

  -- The pointer is looked for among the slots of the PID that it holds.
  unfoldable pub filter_free : Option Handle → Filters Cb → Option (Status × Filters Cb)
  unfolding swap_pop
  filter_free none fs = some (failed, fs)
  filter_free (some f) fs = do
    s ← get_elem? (fs f.pid).slots f.index
    let hd = fs s.pid
    some (
        if s.pid == f.pid
        then (
          ok,
          update fs s.pid (filter_rebuild (record hd { slots = swap_pop hd.slots f.index s })),
        )
        else (failed, fs))

  unfoldable pub lookup_from : FilterParam → List (FilterSlot Cb) → ℕ → Option ℕ
  lookup_from para [] i = none
  lookup_from para (s ∷ rest) i =
      let later = lookup_from para rest (i + 1) in if same_param s.para para then some i else later

  unfoldable pub filter_lookup : ℕ → Option FilterParam → Filters Cb → Option Handle
  unfolding lookup_from
  filter_lookup pid none fs = none
  filter_lookup pid (some para) fs = elim (lookup_from para (fs pid).slots 0) [
    | none ↦ none
    | some i ↦ some (record { pid = pid; index = i })
  ]
