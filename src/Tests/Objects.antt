-- ===== src/Tests/Objects.antt =====
-- The batches of a listing.
use kubernetes_csi_driver.Base.{◌≡◌, All, [], ◌∷◌}
use kubernetes_csi_driver.Text.{lit}
use kubernetes_csi_driver.Qiniu.{batches}
use kubernetes_csi_driver.Qiniu.Batches.{flatten, IsBatch, batches_sound}

batches_sound_example :
    (flatten (batches [] (lit "a" ∷ lit "b" ∷ [])) ≡ lit "a" ∷ lit "b" ∷ [])
    × All IsBatch (batches [] (lit "a" ∷ lit "b" ∷ []))
batches_sound_example = batches_sound (lit "a" ∷ lit "b" ∷ [])
