-- ===== src/Ts/Packet/Counters.antt =====
-- src/ts.c: what `ts_proc` counts, and what it leaves alone.
use tsanalyze.Base.{
  ℕ, ◌==◌, if◌then◌else◌, Bool, true, false, Option, some, ◌>>=◌, Bytes, read8, update,
}
use tsanalyze.Base.{◌≡◌, ◌≢◌, ◌⊎◌, refl, arith, ◌∙◌, ==_ne, Bool-cases, bind-some, inl, inr}
use tsanalyze.Base.{cond-true}
use tsanalyze.Filter.{Status, ok, failed}
use tsanalyze.Ts.Section.{SectionParser, Preproc, section_preproc}
use tsanalyze.Ts.Adaptation.{PidOps, Cursor}
use tsanalyze.Ts.Packet.{
  TsHeader, Demux, TsState, has_no_payload, null_pid, ts_sync_byte, ts_proc, read_header,
  adaptation_part, payload_part, hand_over, is_pes_pid,
}
use tsanalyze.Ts.Packet.{count_packet, count_error, put_dev}

-- Only what is kept of one PID may differ.
pub record OnlyPid {R : Type 0} (pid : ℕ) (s s' : TsState R) : Type 0 where
  pub dev_kept : (q : ℕ) → q ≢ pid → s'.pid_dev q ≡ s.pid_dev q
  pub sec_kept : (q : ℕ) → q ≢ pid → s'.sec q ≡ s.sec q

module _ {R : Type 0} where
  OnlyPid-trans :
      {pid : ℕ} {s s' s'' : TsState R} → OnlyPid pid s s' → OnlyPid pid s' s'' → OnlyPid pid s s''
  OnlyPid-trans a b = record {
    dev_kept = λ q other. b.dev_kept q other ∙ a.dev_kept q other;
    sec_kept = λ q other. b.sec_kept q other ∙ a.sec_kept q other;
  }

  put_dev-OnlyPid : (pid : ℕ) (dev : PidOps) (s : TsState R) → OnlyPid pid s (put_dev pid dev s)
  put_dev-OnlyPid pid dev s = record {
    dev_kept = λ q other. rw (==_ne q pid other);
    sec_kept = λ q other. refl;
  }

  adaptation_part-OnlyPid :
      (h : TsHeader) (pkt_len : ℕ) (c c' : Cursor) (s s' : TsState R)
      → adaptation_part h pkt_len c s ≡ some (c', s')
      → OnlyPid h.pid s s'
  unfolding adaptation_part
  adaptation_part-OnlyPid h pkt_len c c' s s' e = record {
    dev_kept = λ q other. ground arith;
    sec_kept = λ q other. ground arith;
  }

  count_error-OnlyPid : (h : TsHeader) (s : TsState R) → OnlyPid h.pid s (count_error h s)
  count_error-OnlyPid h s = record {
    dev_kept = λ q other. ground arith;
    sec_kept = λ q other. ground arith;
  }

  module _ (malloc : Option Bytes) (demux : Demux R) where
    hand_over-OnlyPid :
        (pid : ℕ) (r : Preproc) (s s' : TsState R) (status : Status)
        → hand_over malloc demux pid r s ≡ some (status, s')
        → OnlyPid pid s s'
    unfolding hand_over
    hand_over-OnlyPid pid r s s' status e = record {
      dev_kept = λ q other. ground arith;
      sec_kept = λ q other. ground arith;
    }

    put_sec-OnlyPid :
        (pid : ℕ) (q : SectionParser) (s : TsState R)
        → OnlyPid pid s (record s { sec = update s.sec pid q })
    put_sec-OnlyPid pid q s = record {
      dev_kept = λ k other. refl;
      sec_kept = λ k other. rw (==_ne k pid other);
    }

    -- What follows once the stream is known or not.
    routed-OnlyPid :
        (known : Bool) (o : Option Preproc) (pid : ℕ) (s s' : TsState R) (status : Status)
        → (if known
            then (o >>= (λ r.
                hand_over malloc demux pid r (record s { sec = update s.sec pid r.parser })))
            else some (failed, s))
          ≡ some (status, s')
        → OnlyPid pid s s'
    routed-OnlyPid false o pid s s' status e = record {
      dev_kept = λ q other. ground arith;
      sec_kept = λ q other. ground arith;
    }
    routed-OnlyPid true o pid s s' status e =
        let (r, parsed, e') = bind-some o _ e in
        OnlyPid-trans (put_sec-OnlyPid pid r.parser s) (hand_over-OnlyPid pid r _ s' status e')

    payload_part-OnlyPid :
        (h : TsHeader) (c : Cursor) (s s' : TsState R) (status : Status)
        → payload_part malloc demux h c s ≡ some (status, s')
        → OnlyPid h.pid s s'
    unfolding payload_part
    payload_part-OnlyPid h c s s' status e =
        let (is_pes, asked, e₁) = bind-some (is_pes_pid malloc demux h.pid s.behind) _ e in
        let (known, asked', e₂) =
          bind-some (if is_pes then demux.check_es_pid h.pid s.behind else some true) _ e₁ in
        routed-OnlyPid known
          (section_preproc malloc (s.sec h.pid) c.ptr c.left h.payload_unit_start_indicator
            h.continuity_counter is_pes)
          h.pid s s' status e₂

    -- What follows the adaptation field.
    rest-OnlyPid :
        (bare null : Bool) (h : TsHeader) (c : Cursor) (s s₁ s' : TsState R) (status : Status)
        → OnlyPid h.pid s s₁
        → (if bare
            then some (ok, s₁)
            else if null
            then some (ok, count_error h s₁)
            else payload_part malloc demux h c (count_error h s₁))
          ≡ some (status, s')
        → OnlyPid h.pid s s'
    rest-OnlyPid true null h c s s₁ s' status before e = record {
      dev_kept = λ q other. ground (arith, before.dev_kept q other);
      sec_kept = λ q other. ground (arith, before.sec_kept q other);
    }
    rest-OnlyPid false true h c s s₁ s' status before e = OnlyPid-trans before (record {
      dev_kept = λ q other. ground (arith, (count_error-OnlyPid h s₁).dev_kept q other);
      sec_kept = λ q other. ground (arith, (count_error-OnlyPid h s₁).sec_kept q other);
    })
    rest-OnlyPid false false h c s s₁ s' status before e =
        OnlyPid-trans before
          (OnlyPid-trans (count_error-OnlyPid h s₁) (payload_part-OnlyPid h c _ s' status e))

    -- A packet that is taken starts with the sync byte and changes nothing that is kept of another
    -- PID: neither its counters, its clock and its bit rate nor its section parser. A packet that
    -- starts with another byte fails and changes nothing.
    pub ts_proc-OnlyPid :
        (ptr : Bytes) (len : ℕ) (s s' : TsState R) (status : Status)
        → ts_proc malloc demux (some ptr) len s ≡ some (status, s')
        → ((read8 ptr 0 ≡ some 0x47)
            × ((hc : TsHeader × Cursor) × (read_header (record { ptr = ptr; left = len }) ≡ some hc)
                × OnlyPid hc.0.pid s s'))
          ⊎ ((sync : ℕ) × (read8 ptr 0 ≡ some sync) × (sync ≢ 0x47) × (status ≡ failed) × (s' ≡ s))
    unfolding ts_proc
    ts_proc-OnlyPid ptr len s s' status e =
        let (sync, at0, e₁) = bind-some (read8 ptr 0) _ e in
        elim (Bool-cases (sync == ts_sync_byte)) [
          | inl starts ↦
              let e₂ = cond-true _ _ starts e₁ in
              let (hc, header, e₃) =
                bind-some (read_header (record { ptr = ptr; left = len })) _ e₂ in
              let (cs, adapted, e₄) =
                bind-some (adaptation_part hc.0 len hc.1 (count_packet hc.0.pid s)) _ e₃ in
              inl (
                ground (arith, at0, starts),
                (
                  hc,
                  header,
                  rest-OnlyPid (has_no_payload hc.0) (hc.0.pid == null_pid) hc.0 cs.0 s cs.1 s'
                      status
                      (OnlyPid-trans (put_dev-OnlyPid hc.0.pid _ s)
                        (adaptation_part-OnlyPid hc.0 len hc.1 cs.0 _ cs.1 adapted))
                      e₄,
                ),
              )
          | inr bad ↦
              inr (sync, at0, λ e. absurd (ground (arith, bad, e)), ground arith, ground arith)
        ]
