-- ===== src/Billing/Requests.antt =====
-- The webhooks, and the administrators' handlers of handlers/admin.rs on subscriptions, one after the
-- other. The deletion of a user, which takes the user's rows with it, is not one of them.
use ullav_user_management.Prelude.{ℕ, Option, List, [], ◌∷◌, Chars}
use ullav_user_management.Prelude.Int.{ℤ}
use ullav_user_management.Billing.{BillingDb}
use ullav_user_management.Billing.Store.{
  admin_create_subscription, admin_update_subscription, admin_delete_subscription,
}
use ullav_user_management.Billing.Providers.{PaymentState, Transmission}
use ullav_user_management.Billing.Handlers.{stripe_webhook, paypal_webhook}

-- The fields of the requests' bodies.
pub data BillingRequest : Type 0 where
  stripe_delivery : Option Chars → Chars → BillingRequest
  paypal_delivery : Transmission → Chars → BillingRequest
  create_user_subscription : ℕ → Chars → Chars → Chars → ℤ → BillingRequest
  update_subscription : ℕ → Option Chars → Option Chars → Option ℤ → BillingRequest
  delete_subscription : ℕ → BillingRequest

module _ {Json : Type 0} (state : PaymentState Json) where
  -- The tables after a request.
  unfoldable pub serve_billing : BillingRequest → BillingDb → BillingDb
  serve_billing (stripe_delivery signature body) db = (stripe_webhook state signature body db).1
  serve_billing (paypal_delivery transmission body) db =
      (paypal_webhook state transmission body db).1
  serve_billing (create_user_subscription user_id product_slug plan status seat_count) db =
      (admin_create_subscription user_id product_slug plan status seat_count db).1
  serve_billing (update_subscription id plan status seat_count) db =
      (admin_update_subscription id plan status seat_count db).1
  serve_billing (delete_subscription id) db = (admin_delete_subscription id db).1

  unfoldable pub serve_all : List BillingRequest → BillingDb → BillingDb
  serve_all [] db = db
  serve_all (r ∷ rs) db = serve_all rs (serve_billing r db)
