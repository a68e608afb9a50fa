-- ===== src/Plugin/Kodo/Swap.antt =====
-- Assignments to different fields of the storage class parameters commute.
use kubernetes_csi_driver.Base.{◌≡◌, refl, ◌≢◌, arith, ◌>>=◌, to_option}
use kubernetes_csi_driver.Text.{Str}
use kubernetes_csi_driver.Plugin.Fields.{Field, bucket_id}
use kubernetes_csi_driver.Plugin.Values.{GoLib}
use kubernetes_csi_driver.Plugin.Kodo.StorageClass.{KodoStorageClassParameter, assign}

module _ {Url Duration : Type 0} (go : GoLib Url Duration) (fn : Str) where
  -- 45 fields by 45: each pair of different fields is assigned in either order.
  pub assign_swap :
      (f g : Field) (v w : Str) (p : KodoStorageClassParameter Url Duration)
      → f ≢ g
      → to_option (assign go fn f v p >>= assign go fn g w)
        ≡ to_option (assign go fn g w p >>= assign go fn f v)
  unfolding assign
  assign_swap bucket_id bucket_id v w p h = refl
  assign_swap f g v w p h = ground arith
