-- ===== src/Errors.antt =====
-- The errors that the modelled packages return, as one type, and results. `wrong_type`, `network`
-- and `tx_failed` (redis.TxFailedErr) come from the Redis client.
use cheese_kakao_talk_bot.Prelude.{String, ◌≡◌, refl, ◌⊎◌, inl, inr}

pub data Error : Type 0 where
  wrong_type network tx_failed : Error
  invalid_participants invalid_user invalid_parameters : Error
  game_not_found user_not_in_game game_not_in_room reconstruct_failed : Error
  not_your_turn game_no_longer_active : Error
  illegal_move : String → Error
  invalid_args channel_gone channel_active full : Error
  player_busy_in_room creator_has_lobby no_code random_failed : Error
  -- a nil pointer is dereferenced
  panic : Error

pub data Result {ℓ} (A : Type ℓ) : Type ℓ where
  ok : A → Result A
  err : Error → Result A

pub Result-cases {ℓ} :
    {A : Type ℓ} (r : Result A) → ((a : A) × (r ≡ ok a)) ⊎ ((e : Error) × (r ≡ err e))
Result-cases (ok a) = inl (a, refl)
Result-cases (err e) = inr (e, refl)
