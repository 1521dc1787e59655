-- ===== src/Schedule/Book/Outcomes.antt =====
-- What the operations on the schedules of a charger in givEVC-ocppv2/app/ocpp/coordinator.py leave behind
-- when they raise.
use giv_evc_ocppv.Base.{ℕ, ◌≡◌, Bool, Text, text_comparable, arith, ◌⊎◌}
use giv_evc_ocppv.Schedule.Item.{Request}
use giv_evc_ocppv.Schedule.Book.{
  Book, CallResult, err, Error, save_charging_schedule, set_charging_schedule_enabled,
  delete_charging_schedule,
}

-- What an error leaves behind.
module _ (reply : CallResult) (meanwhile : Book → Book) (b : Book) where
  -- An operation that raises has changed nothing: the book is as it was, or as other tasks have
  -- left it while the refused call was awaited.
  pub error_keeps_book :
      (schedule : Request) (now_ms : ℕ) (key : Text) (enabled : Bool) (e : Error)
      → ((save_charging_schedule schedule now_ms reply meanwhile b).0 ≡ err e
          → (save_charging_schedule schedule now_ms reply meanwhile b).1 ≡ meanwhile b)
        × ((set_charging_schedule_enabled key enabled reply meanwhile b).0 ≡ err e
            → ((set_charging_schedule_enabled key enabled reply meanwhile b).1 ≡ b)
              ⊎ ((set_charging_schedule_enabled key enabled reply meanwhile b).1 ≡ meanwhile b))
        × ((delete_charging_schedule key reply meanwhile b).0 ≡ err e
            → ((delete_charging_schedule key reply meanwhile b).1 ≡ b)
              ⊎ ((delete_charging_schedule key reply meanwhile b).1 ≡ meanwhile b))
  unfolding save_charging_schedule set_charging_schedule_enabled delete_charging_schedule
  error_keeps_book schedule now_ms key enabled e =
      (λ h. ground arith, λ h. ground arith, λ h. ground arith)
