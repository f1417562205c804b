-- ===== src/Examples/Waits.antt =====
-- The wait for a Bitcoin attestation, where the calendar has nothing new.
use ots.Prelude.{◌≡◌, refl, true, false, [], none}
use ots.Result.{ok}
use ots.Timestamp.{all_attestations}
use ots.Verify.{Upgrader}
use ots.Verify.Upgrade.{upgrade, upgrade_all, upgrade_one, is_complete, has_bitcoin}
use ots.Timestamp.{go_on}
use ots.Client.{upgrade_until_confirmed, after_upgrade}
use ots.Client.Waiting.{upgrade_until_confirmed_complete}
use ots.Examples.Data.{toy_hashes, tree}

abbrev silent : Upgrader
silent uri msg = none

tree_polled : upgrade toy_hashes silent tree ≡ (tree, ok false)
unfolding upgrade upgrade_all upgrade_one go_on all_attestations
tree_polled = refl

tree_complete : is_complete tree ≡ true
unfolding is_complete has_bitcoin all_attestations
tree_complete = refl

tree_waited : upgrade_until_confirmed toy_hashes silent [] tree ≡ (tree, ok tt)
unfolding upgrade_until_confirmed after_upgrade
tree_waited = rw tree_polled (rw tree_complete refl)

upgrade_until_confirmed_complete_example : is_complete tree ≡ true
upgrade_until_confirmed_complete_example =
    upgrade_until_confirmed_complete toy_hashes silent [] tree tree tree_waited
