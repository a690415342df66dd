-- ===== src/Billing/Provision.antt =====
-- What payments/stripe.rs and payments/paypal.rs both do at the end of an activation: a conflict is
-- ignored, and Clann brings a Comad subscription with it.
use ullav_user_management.Prelude.{if◌then◌else◌, codes, same_chars}
use ullav_user_management.Errors.{Result, ok, err, conflict}
use ullav_user_management.Exec.{Exec, pure, ◌>>◌}
use ullav_user_management.Billing.{Subscription, BillingDb}
use ullav_user_management.Billing.Store.{Details, activate_subscription, ensure_comad_individual}

-- `.map(|_| ()).or_else(…)`: `Conflict` counts as success.
abbrev pub or_conflict : Result Subscription → Result (Unit {0})
or_conflict (ok row) = ok tt
or_conflict (err conflict) = ok tt
or_conflict (err e) = err e

abbrev pub activate_or_conflict : Details → Exec BillingDb (Unit {0})
activate_or_conflict d db =
    (or_conflict (activate_subscription d db).0, (activate_subscription d db).1)

abbrev pub bundle : Details → Exec BillingDb (Unit {0})
bundle d =
    if same_chars d.product_slug (codes "clann") then ensure_comad_individual d.user_id else pure tt

unfoldable pub provision : Details → Exec BillingDb (Unit {0})
provision d = activate_or_conflict d >> bundle d
