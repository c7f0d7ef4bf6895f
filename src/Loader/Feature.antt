-- ===== src/Loader/Feature.antt =====
-- The feature switches of pkg/config/loader.go, with FeatureFlag and FeatureContext of
-- pkg/config/options.go. What viper binds at the key, the CRC-32 and the decimal digits of an account are
-- parameters.
use compkg.Common.{
  ℕ, suc, ◌%◌, ◌^◌, ◌-◌, ◌&&◌, ◌||◌, ◌<◌, ◌≡◌, refl, Bool, true, false, not, ◌∷◌, ◌++◌, ltb,
  if◌then◌else◌, arith,
}
use compkg.Common.Int.{ℤ, pos, negsuc, ◌≤ℤ◌, ltb_ℤ, is_nonpos}
use compkg.Common.Text.{Text}

pub record FeatureContext : Type 0 where
  pub device_no : Text
  pub account_id : ℤ
  pub instance_id : Text

pub record FeatureFlag : Type 0 where
  pub enabled : Bool
  pub rollout : ℤ

-- IsSet and Bind of the key of a switch
pub data Bound : Type 0 where
  unset bad : Bound
  bound : FeatureFlag → Bound

abbrev uint32 : ℤ → ℕ
uint32 (pos n) = n % 2 ^ 32
uint32 (negsuc n) = (2 ^ 32 - suc n % 2 ^ 32) % 2 ^ 32

grown :
    (enabled : Bool) (rollout larger : ℤ) (n : ℕ)
    → rollout ≤ℤ larger
    → (not (enabled && ltb_ℤ (pos n) rollout) || (enabled && ltb_ℤ (pos n) larger)) ≡ true
grown false rollout larger n h = refl
grown true rollout larger n h = ground arith

module _ (checksum_ieee : Text → ℕ) (format_int : ℤ → Text) where
  unfoldable pub feature_bucket : FeatureContext → ℕ
  feature_bucket ctx =
      checksum_ieee
        (ctx.device_no ++ (b'|' ∷ (format_int ctx.account_id ++ (b'|' ∷ ctx.instance_id))))
      % 100

  unfoldable pub feature : Bound → FeatureContext → Bool
  feature unset ctx = false
  feature bad ctx = false
  feature (bound f) ctx =
      if not f.enabled
      then false
      else (if not (ltb_ℤ f.rollout (pos 100))
          then true
          else (if is_nonpos f.rollout then false else ltb (feature_bucket ctx) (uint32 f.rollout)))

  feature-ltb :
      (enabled : Bool) (rollout : ℤ) (ctx : FeatureContext)
      → feature (bound record { enabled = enabled; rollout = rollout }) ctx
        ≡ (enabled && ltb_ℤ (pos (feature_bucket ctx)) rollout)
  unfolding feature feature_bucket
  feature-ltb false rollout ctx = refl
  feature-ltb true (pos n) ctx = ground arith
  feature-ltb true (negsuc n) ctx = ground arith

  -- A switch is on for a context if it is enabled and the bucket of the context, which is below 100, is
  -- less than the rollout, at whatever rollout, also one that is negative or over 100; and on for every
  -- larger rollout then: a device that has a feature keeps it while the rollout grows.
  feature-rollout :
      (enabled : Bool) (rollout larger : ℤ) (ctx : FeatureContext)
      → rollout ≤ℤ larger
      → (feature_bucket ctx < 100)
        × (feature (bound record { enabled = enabled; rollout = rollout }) ctx
            ≡ (enabled && ltb_ℤ (pos (feature_bucket ctx)) rollout))
        × ((not (feature (bound record { enabled = enabled; rollout = rollout }) ctx)
              || feature (bound record { enabled = enabled; rollout = larger }) ctx)
            ≡ true)
  unfolding feature_bucket
  feature-rollout enabled rollout larger ctx h = (
    omega arith,
    feature-ltb enabled rollout ctx,
    rw (feature-ltb enabled rollout ctx, feature-ltb enabled larger ctx)
        (grown enabled rollout larger (feature_bucket ctx) h),
  )
