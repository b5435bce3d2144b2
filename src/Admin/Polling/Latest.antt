-- ===== src/Admin/Polling/Latest.antt =====
-- What a page shows of the requests that have ended.
use dmqtt.Base.{◌≡◌, refl, Bytes, List, [], ◌∷◌, ◌++◌, false, Option, none, some}
use dmqtt.Admin.Polling.{
  Outcome, fetched, thrown, Polling, message_or_default, use_polling, refresh, run,
}

module _ {ℓ} {T : Type ℓ} where
  -- The value of the last request that succeeded, or the one from before.
  unfoldable pub last_fetched : Option T → List (Outcome T) → Option T
  last_fetched before [] = before
  last_fetched before (fetched t ∷ os) = last_fetched (some t) os
  last_fetched before (thrown message ∷ os) = last_fetched before os

  -- The error to show after an outcome.
  unfoldable pub shown_error : Outcome T → Option Bytes
  shown_error (fetched t) = none
  shown_error (thrown message) = some (message_or_default message)

  run-data_value :
      (p : Polling T) (os : List (Outcome T)) → (run p os).data_value ≡ last_fetched p.data_value os
  unfolding run refresh last_fetched
  run-data_value p [] = refl
  run-data_value p (fetched t ∷ os) = run-data_value (refresh p (fetched t)) os
  run-data_value p (thrown message ∷ os) = run-data_value (refresh p (thrown message)) os

  run-append :
      (p : Polling T) (os : List (Outcome T)) (o : Outcome T)
      → run p (os ++ (o ∷ [])) ≡ refresh (run p os) o
  unfolding run
  run-append p [] o = refl
  run-append p (q ∷ os) o = run-append (refresh p q) os o

  refresh-error :
      (p : Polling T) (o : Outcome T)
      → ((refresh p o).error ≡ shown_error o) × ((refresh p o).loading ≡ false)
  unfolding refresh shown_error
  refresh-error p (fetched t) = (refl, refl)
  refresh-error p (thrown message) = (refl, refl)

  -- In whatever order requests end: the data is that of the last one that succeeded, and stays through
  -- failures; the error is shown exactly while the last one to end has failed; and nothing is loading
  -- once one has ended.
  pub run-use_polling :
      (os : List (Outcome T)) (o : Outcome T)
      → ((run use_polling (os ++ (o ∷ []))).data_value ≡ last_fetched none (os ++ (o ∷ [])))
        × ((run use_polling (os ++ (o ∷ []))).error ≡ shown_error o)
        × ((run use_polling (os ++ (o ∷ []))).loading ≡ false)
  unfolding use_polling
  run-use_polling os o = (
    run-data_value use_polling (os ++ (o ∷ [])),
    rw (run-append use_polling os o) (refresh-error (run use_polling os) o).0,
    rw (run-append use_polling os o) (refresh-error (run use_polling os) o).1,
  )
