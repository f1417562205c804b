-- ===== src/Client/Waiting.antt =====
-- UpgradeUntilConfirmed (pkg/ots/upgrade.go).
use ots.Prelude.{◌≡◌, Bool, true, List, [], ◌∷◌, Bool-cases, inl, inr, subst}
use ots.Result.{Result, ok, err, panicked, stuck}
use ots.Op.{Hashes}
use ots.Timestamp.{Timestamp, Merging}
use ots.Verify.{Upgrader}
use ots.Verify.Upgrade.{upgrade, is_complete}
use ots.Client.{after_upgrade, upgrade_until_confirmed}

-- A wait that ends well leaves a complete proof.
abbrev IsDone : Merging → Type 0
IsDone (t, ok u) = is_complete t ≡ true
IsDone (t, err e) = Unit
IsDone (t, panicked) = Unit
IsDone (t, stuck) = Unit

after_upgrade-IsDone :
    (r : Timestamp × Result Bool) (wait : Timestamp → Merging)
    → ((t : Timestamp) → IsDone (wait t))
    → IsDone (after_upgrade r wait)
unfolding after_upgrade
after_upgrade-IsDone (t, ok gained) wait later = elim (Bool-cases (is_complete t)) [
  | inl complete ↦ rw complete complete
  | inr incomplete ↦ rw incomplete (later t)
]
after_upgrade-IsDone (t, err e) wait later = tt
after_upgrade-IsDone (t, panicked) wait later = tt
after_upgrade-IsDone (t, stuck) wait later = tt

upgrade_until_confirmed-IsDone :
    (h : Hashes) (up : Upgrader) (ups : List Upgrader) (t : Timestamp)
    → IsDone (upgrade_until_confirmed h up ups t)
unfolding upgrade_until_confirmed
upgrade_until_confirmed-IsDone h up [] t = after_upgrade-IsDone (upgrade h up t) _ λ t'. tt
upgrade_until_confirmed-IsDone h up (next ∷ ups) t =
    after_upgrade-IsDone (upgrade h up t) _ λ t'. upgrade_until_confirmed-IsDone h next ups t'

-- UpgradeUntilConfirmed returns without an error only where the proof is complete: it then has a
-- Bitcoin attestation.
pub upgrade_until_confirmed_complete :
    (h : Hashes) (up : Upgrader) (ups : List Upgrader) (t t' : Timestamp)
    → upgrade_until_confirmed h up ups t ≡ (t', ok tt)
    → is_complete t' ≡ true
upgrade_until_confirmed_complete h up ups t t' e =
    subst IsDone e (upgrade_until_confirmed-IsDone h up ups t)
