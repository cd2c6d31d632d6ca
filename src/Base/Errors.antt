-- ===== src/Base/Errors.antt =====
-- The exceptions that the modelled code throws, and the result of a call that may throw one.

pub data Error : Type 0 where
  used_gt_capacity read_gt_used absent_object : Error
  pool_too_small allocation_failed wrong_allocator : Error
  uninitialized_connection second_consumer : Error
  producer_timeout consumer_timeout : Error
  configuration_error no_resources not_accepted : Error

pub data Result {ℓ} (A : Type ℓ) : Type ℓ where
  ok : A → Result A
  err : Error → Result A

infixl 5 ◌>>=◌
abbrev pub ◌>>=◌ {ℓ κ} : {A : Type ℓ} {B : Type κ} → Result A → (A → Result B) → Result B
ok a >>= f = f a
err e >>= f = err e
