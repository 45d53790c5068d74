-- ===== src/Psip/Proc.antt =====
-- src/atsc_psip.c: `atsc_psip_proc`, which hands a section to the parser of its table.
use tsanalyze.Base.{
  ℕ, ◌^◌, ◌==◌, leb, ◌&&◌, ◌||◌, if◌then◌else◌, bit_or, Bool, true, false, Option, some, ◌>>=◌,
  Bytes, read8, Heap,
}
use tsanalyze.Psip.Guide.{AtscMgt, parse_mgt}
use tsanalyze.Psip.Channel.{AtscVct, parse_vct}
use tsanalyze.Psip.Rating.{AtscRrt, parse_rrt}
use tsanalyze.Psip.Event.{AtscEit, AtscEtt, parse_atsc_eit, parse_ett}
use tsanalyze.Psip.Clock.{AtscStt, parse_stt}
use tsanalyze.Psip.Change.{AtscDcct, AtscDccsct, parse_dcct, parse_dccsct}

-- `atsc_psip_t`, with `psip_seen_mask`.
pub record AtscPsip (D : Type 0) : Type 0 where
  pub stt : AtscStt D
  pub mgt : AtscMgt D
  pub tvct : AtscVct D
  pub cvct : AtscVct D
  pub rrt : AtscRrt D
  pub eit : AtscEit D
  pub ett : AtscEtt
  pub dcct : AtscDcct D
  pub dccsct : AtscDccsct D
  pub seen_mask : ℕ

-- `psip_seen_mask |= 1 << k`
abbrev pub seen : {D : Type 0} → ℕ → AtscPsip D → AtscPsip D
seen k p = record p { seen_mask = bit_or p.seen_mask (2 ^ k) }

-- `fuel` is for the loop of `parse_stt`; `memory` and `text_memory` say what `calloc`
-- gives.
module _ {D : Type 0} (parse : ℕ → Bytes → ℕ → Option D) (malloc : ℕ → Option Bytes) (memory : Bool)
    (text_memory : Bytes → Bool) (fuel : ℕ) where
  -- The tables of the guide, the channels and the ratings.
  unfoldable pub guide_proc : ℕ → Bytes → ℕ → AtscPsip D → Heap → Option (AtscPsip D × Heap)
  guide_proc tid pkt len p mem =
      if tid == 0xC7
      then (do
        (_, t, mem') ← parse_mgt parse memory malloc (some pkt) len p.mgt mem
        some (seen 0 (record p { mgt = t }), mem'))
      else if tid == 0xC8
      then (do
        (_, t, mem') ← parse_vct parse memory false malloc (some pkt) len p.tvct mem
        some (seen 1 (record p { tvct = t }), mem'))
      else if tid == 0xC9
      then (do
        (_, t, mem') ← parse_vct parse memory true malloc (some pkt) len p.cvct mem
        some (seen 2 (record p { cvct = t }), mem'))
      else (do
        (_, t, mem') ← parse_rrt parse text_memory malloc (some pkt) len p.rrt mem
        some (seen 3 (record p { rrt = t }), mem'))

  -- The tables of the events and the time.
  unfoldable pub event_proc : ℕ → Bytes → ℕ → AtscPsip D → Heap → Option (AtscPsip D × Heap)
  event_proc tid pkt len p mem =
      if tid == 0xCC
      then (do
        (_, t, mem') ← parse_ett text_memory malloc (some pkt) len p.ett mem
        some (seen 5 (record p { ett = t }), mem'))
      else if tid == 0xCB
      then (do
        (_, t, mem') ← parse_atsc_eit parse memory text_memory malloc (some pkt) len p.eit mem
        some (seen 4 (record p { eit = t }), mem'))
      else (do
        (_, t, mem') ← parse_stt parse fuel malloc (some pkt) len p.stt mem
        some (seen 6 (record p { stt = t }), mem'))

  -- The tables of directed channel changes.
  unfoldable pub change_proc : ℕ → Bytes → ℕ → AtscPsip D → Heap → Option (AtscPsip D × Heap)
  change_proc tid pkt len p mem =
      if tid == 0xD3
      then (do
        (_, t, mem') ← parse_dcct parse memory malloc (some pkt) len p.dcct mem
        some (seen 7 (record p { dcct = t }), mem'))
      else (do
        (_, t, mem') ← parse_dccsct parse memory text_memory malloc (some pkt) len p.dccsct mem
        some (seen 8 (record p { dccsct = t }), mem'))

  unfoldable pub atsc_psip_proc : Bytes → ℕ → AtscPsip D → Heap → Option (AtscPsip D × Heap)
  unfolding guide_proc event_proc change_proc
  atsc_psip_proc pkt len p mem = do
    tid ← read8 pkt 0
    if leb 0xC7 tid && leb tid 0xCA
        then guide_proc tid pkt len p mem
        else if leb 0xCB tid && leb tid 0xCD
        then event_proc tid pkt len p mem
        else if tid == 0xD3 || tid == 0xD4
        then change_proc tid pkt len p mem
        else some (p, mem)
