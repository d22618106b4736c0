-- ===== src/OperatorCa/Revocations/Poll.antt =====
-- internal/operatorca/revocation.go: the Poller, which notices what other replicas changed. The
-- trust store's Rebuild, where there is one, is a parameter.
use manager.Prelude.{
  ℕ, ◌≡◌, refl, Bool, true, false, not, ◌||◌, Option, none, some, ◌==◌, nat_eq, string_eq,
  if◌then◌else◌, Result, ok, err, Result-cases, inl, inr,
}
use manager.OperatorCa.Base.{Error}
use manager.OperatorCa.Crl.{Decoders}
use manager.OperatorCa.Trust.{TrustVersion, OperatorTrust}
use manager.OperatorCa.Revocations.{Revocations}
use manager.OperatorCa.Revocations.Engine.{
  mark_polled, reload, reload_denylist, reload_crls, and_crls, use_crls,
}

-- Poller: what it saw last
pub record Poller : Type 0 where
  pub last : TrustVersion
  pub first : Bool

-- NewPoller
unfoldable pub new_poller : Poller
new_poller = record { last = record { cas = ""; epoch = 0 }; first = true }

-- What a call leaves in the engine, and its error.
abbrev pub Done : Type 0
Done = Revocations × Result Error (Unit {0})

module _ {S : Type 0} (t : OperatorTrust S) (d : Decoders)
    (rebuild : Option (S → Revocations → Done)) where
  unfoldable pub rebuild_if : Bool → S → Revocations → Done
  rebuild_if due s r = elim rebuild [
    | none ↦ (r, ok tt)
    | some f ↦ if due then f s r else (r, ok tt)
  ]

  unfoldable pub reload_if : Bool → ℕ → S → Done → Done
  reload_if due now s (r, err e) = (r, err e)
  reload_if due now s (r, ok u) = if due then reload t d now s r else (mark_polled now r, ok tt)

  unfoldable pub after_poll :
      TrustVersion → Poller → Done → Poller × Revocations × Result Error (Unit {0})
  after_poll v p (r, err e) = (p, r, err e)
  after_poll v p (r, ok u) = (record { last = v; first = false }, r, ok u)

  -- PollOnce
  unfoldable pub poll_once :
      ℕ → S → Poller → Revocations → Poller × Revocations × Result Error (Unit {0})
  poll_once now s p r = elim (t.operator_trust_version s) [
    | err e ↦ (p, r, err e)
    | ok v ↦ after_poll v p (
        reload_if (p.first || not (v.epoch == p.last.epoch)) now s
          (rebuild_if (p.first || not (v.cas == p.last.cas)) s r))
  ]

  reload_crls-polled :
      (now : ℕ) (s : S) (r : Revocations)
      → (reload_crls t d now s r).1 ≡ ok tt
      → (reload_crls t d now s r).0.polled_at ≡ now
  unfolding reload_crls use_crls
  reload_crls-polled now s r h = elim (Result-cases (t.operator_crls s)) [
    | inl (crls, q) ↦ rw (q, reload_crls) refl
    | inr (e, q) ↦ absurd (let k = rw (q, reload_crls) at h in cc)
  ]

  and_crls-polled :
      (now : ℕ) (s : S) (p : Done)
      → (and_crls t d now s p).1 ≡ ok tt
      → (and_crls t d now s p).0.polled_at ≡ now
  unfolding and_crls
  and_crls-polled now s (r, err e) h = absurd (cc)
  and_crls-polled now s (r, ok u) h = reload_crls-polled now s r h

  reload_if-polled :
      (due : Bool) (now : ℕ) (s : S) (p : Done)
      → (reload_if due now s p).1 ≡ ok tt
      → (reload_if due now s p).0.polled_at ≡ now
  unfolding reload_if mark_polled reload
  reload_if-polled due now s (r, err e) h = absurd (cc)
  reload_if-polled true now s (r, ok u) h = and_crls-polled now s (reload_denylist t d s r) h
  reload_if-polled false now s (r, ok u) h = refl

  -- A successful poll counts as one at its time, so that the five minutes of the MCP rule start
  -- again, and remembers the version that it read; a failed one leaves the poller as it was, so
  -- that the next poll tries the same changes again.
  pub poll_once-remembers :
      (now : ℕ) (s : S) (p : Poller) (r : Revocations)
      → ((poll_once now s p r).2 ≡ ok tt
          → ((poll_once now s p r).1.polled_at ≡ now)
            × ((poll_once now s p r).0.first ≡ false)
            × (t.operator_trust_version s ≡ ok (poll_once now s p r).0.last))
        × ((e : Error) → (poll_once now s p r).2 ≡ err e → (poll_once now s p r).0 ≡ p)
  unfolding poll_once
  poll_once-remembers now s p r = elim (Result-cases (t.operator_trust_version s)) [
    | inr (e, q) ↦ rw (q, poll_once) ((λ h. absurd (cc)), λ f h. refl)
    | inl (v, q) ↦
        rw (q, poll_once)
          (after v
            (reload_if (p.first || not (v.epoch == p.last.epoch)) now s
              (rebuild_if (p.first || not (v.cas == p.last.cas)) s r))
            (reload_if-polled (p.first || not (v.epoch == p.last.epoch)) now s
              (rebuild_if (p.first || not (v.cas == p.last.cas)) s r)))
  ]
    where
      after :
          (v : TrustVersion) (q : Done)
          → (q.1 ≡ ok tt → q.0.polled_at ≡ now)
          → ((after_poll v p q).2 ≡ ok tt
              → ((after_poll v p q).1.polled_at ≡ now)
                × ((after_poll v p q).0.first ≡ false)
                × (◌≡◌ {A = Result Error TrustVersion} (ok v) (ok (after_poll v p q).0.last)))
            × ((e : Error) → (after_poll v p q).2 ≡ err e → (after_poll v p q).0 ≡ p)
      after v (r, err e) k = unfold after_poll in ((λ h. absurd (cc)), λ f h. refl)
      after v (r, ok u) k = unfold after_poll in ((λ h. (k refl, refl, refl)), λ f h. absurd (cc))
