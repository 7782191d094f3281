-- ===== src/Leo/Timeline/Order.antt =====
-- The phases of redhat_kernel/tcp_redhat.c within one period, in order and without gaps.
use starlink_tcp.Common.{
  ℕ, ◌+◌, ◌-◌, ◌^◌, ◌≤◌, ◌<◌, ◌≡◌, arith, min, Bool, true, false, ◌&&◌, leb, ltb, ◌⊎◌, inl, inr,
}
use starlink_tcp.Kernel.Sock.{LeoState, Phase, normal, pre_handover, drain, outage}
use starlink_tcp.Leo.Timeline.{
  outage_start, drain_start, pre_start, outage_end, phase_at, scheduled_phase,
}

-- Fields of 32 bits, and an outage of at most half an RTT.
pub record IsSnapshot (st : LeoState) : Type 0 where
  pub half : st.frozen_rtt_half_us < 2 ^ 32
  pub pre : st.frozen_pre_us < 2 ^ 32
  pub drain : st.frozen_drain_us < 2 ^ 32
  pub guard : st.frozen_prediction_guard_us < 2 ^ 32
  pub outage_fits : st.frozen_outage_us ≤ st.frozen_rtt_half_us

module _ {st : LeoState} (v : IsSnapshot st) (period : ℕ) (fits : period < 2 ^ 63) where
  pub boundaries :
      (pre_start period st ≤ drain_start period st)
      × (drain_start period st ≤ outage_start period st)
      × (outage_start period st ≤ period)
  boundaries = ground arith

  lengths :
      (drain_start period st - pre_start period st ≤ st.frozen_pre_us)
      × (outage_start period st - drain_start period st
          ≤ st.frozen_drain_us + st.frozen_prediction_guard_us)
      × (outage_end period st - outage_start period st ≤ st.frozen_outage_us)
  lengths = ground arith

  pub outage_ends : st.frozen_rtt_half_us ≤ period → outage_end period st ≤ period
  outage_ends h = ground arith

-- The place of a phase in a period; what is not scheduled there has place 0.
abbrev pub place : Phase → ℕ
place pre_handover = 1
place drain = 2
place outage = 3
place _ = 0

abbrev pub is_scheduled : Phase → Bool
is_scheduled pre_handover = true
is_scheduled drain = true
is_scheduled outage = true
is_scheduled _ = false

module _ (pre drn out end pos : ℕ) where
  phase_at_interval :
      pre ≤ drn
      → drn ≤ out
      → out ≤ end
      → is_scheduled (phase_at pre drn out end pos).0 ≡ (leb pre pos && ltb pos end)
  unfolding phase_at
  phase_at_interval h k l = ground arith

  phase_at_elapsed :
      (phase_at pre drn out end pos ≡ (pre_handover, pos - pre)) × (pos - pre < drn - pre)
      ⊎ (phase_at pre drn out end pos ≡ (drain, pos - drn)) × (pos - drn < out - drn)
      ⊎ (phase_at pre drn out end pos ≡ (outage, pos - out)) × (pos - out < end - out)
      ⊎ (phase_at pre drn out end pos ≡ (normal, 0))
  unfolding phase_at
  phase_at_elapsed = ground arith

  phase_at_mono :
      (later : ℕ)
      → pos ≤ later
      → pre ≤ drn
      → drn ≤ out
      → is_scheduled (phase_at pre drn out end later).0 ≡ true
      → place (phase_at pre drn out end pos).0 ≤ place (phase_at pre drn out end later).0
  unfolding phase_at
  phase_at_mono later h k l s = ground arith

module _ {st : LeoState} (v : IsSnapshot st) (period pos : ℕ) (fits : period < 2 ^ 63) where
  -- For a snapshot (`IsSnapshot`) and a period below 2^63 microseconds: within a period the window
  -- is reduced on one unbroken interval, from the start of PRE to the end of the outage or of the
  -- period.
  pub scheduled_interval :
      is_scheduled (scheduled_phase period pos st).0
      ≡ (leb (pre_start period st) pos && ltb pos (min (outage_end period st) period))
  unfolding scheduled_phase
  scheduled_interval =
      phase_at_interval _ _ _ _ pos (boundaries v period fits).0 (boundaries v period fits).1
        (omega (arith, boundaries v period fits))

  -- For a snapshot (`IsSnapshot`) and a period below 2^63 microseconds: the time since the phase
  -- began is the time since the phase's start, and stays below the phase's planned length; outside
  -- the phases it is 0.
  pub scheduled_elapsed :
      (scheduled_phase period pos st ≡ (pre_handover, pos - pre_start period st))
        × (pos - pre_start period st < st.frozen_pre_us)
      ⊎ (scheduled_phase period pos st ≡ (drain, pos - drain_start period st))
        × (pos - drain_start period st < st.frozen_drain_us + st.frozen_prediction_guard_us)
      ⊎ (scheduled_phase period pos st ≡ (outage, pos - outage_start period st))
        × (pos - outage_start period st < st.frozen_outage_us)
      ⊎ (scheduled_phase period pos st ≡ (normal, 0))
  unfolding scheduled_phase
  scheduled_elapsed =
      elim (phase_at_elapsed (pre_start period st) (drain_start period st) (outage_start period st)
        (min (outage_end period st) period) pos) [
          | inl p ↦ inl (p.0, omega (arith, lengths v period fits))
          | inr (inl d) ↦ inr (inl (d.0, omega (arith, lengths v period fits)))
          | inr (inr (inl o)) ↦ inr (inr (inl (o.0, omega (arith, lengths v period fits))))
          | inr (inr (inr n)) ↦ inr (inr (inr n))
        ]

-- For a snapshot (`IsSnapshot`) and a period below 2^63 microseconds, within a period the phases
-- come in the order PRE, DRAIN, OUTAGE: where the window is reduced at the later of two positions,
-- the phase at the earlier one does not come after it.
scheduled_phase_mono :
    {st : LeoState} (period pos later : ℕ)
    → IsSnapshot st
    → period < 2 ^ 63
    → pos ≤ later
    → is_scheduled (scheduled_phase period later st).0 ≡ true
    → place (scheduled_phase period pos st).0 ≤ place (scheduled_phase period later st).0
unfolding scheduled_phase
scheduled_phase_mono period pos later v fits h s =
    phase_at_mono _ _ _ _ pos later h (boundaries v period fits).0 (boundaries v period fits).1 s
