-- ===== src/Qiniu/Objects.antt =====
-- CleanObjects in qiniu/kodo.go: listObjects, and the batches of deleteObjects.
use kubernetes_csi_driver.Base.{
  ℕ, zero, suc, Bool, true, false, List, [], ◌∷◌, ◌++◌, Option, none, some, Result, ok, err, leb,
  length,
}
use kubernetes_csi_driver.Text.{Str, is_blank}

-- One line of a listing as JSON has it: a key that is absent is `none`.
pub record Line : Type 0 where
  pub marker : Option Str
  pub key : Option Str

-- `ListedObject`: the marker, and the name of the item.
pub record ListedObject : Type 0 where
  pub marker : Str
  pub object_name : Str

unfoldable pub keep : Option Str → Str → Str
keep none old = old
keep (some new) old = new

-- The decoder writes every line into the same variable, so what a line leaves out stays.
unfoldable pub decode_lines : ListedObject → List Line → List ListedObject
decode_lines prev [] = []
decode_lines prev (l ∷ ls) =
    let o : ListedObject = record {
      marker = keep l.marker prev.marker;
      object_name = keep l.key prev.object_name;
    } in
    o ∷ decode_lines o ls

abbrev pub zero_object : ListedObject
zero_object = record { marker = []; object_name = [] }

-- `for listedObject := range listedObjectsChan { lastMarker = listedObject.Marker … }`
unfoldable pub last_marker : Str → List ListedObject → Str
last_marker m [] = m
last_marker m (o ∷ os) = last_marker o.marker os

unfoldable pub object_names : List ListedObject → List Str
object_names [] = []
object_names (o ∷ os) = o.object_name ∷ object_names os

module _ {E : Type 0} (send : Str → Result E (List Line)) where
  -- The loop of listObjects from a marker, with `send` the answers to the requests: the names, and
  -- the error that follows them. `none` is a loop that is not over after so many requests.
  unfoldable pub list_objects : ℕ → Str → Option (List Str × Option E)
  list_objects zero m = none
  list_objects (suc fuel) m = elim (send m) [
    | err e ↦ some ([], some e)
    | ok ls ↦
        let os = decode_lines zero_object ls in
        elim (is_blank (last_marker m os)) [
          | true ↦ some (object_names os, none)
          | false ↦ elim (list_objects fuel (last_marker m os)) [
            | none ↦ none
            | some (names, e) ↦ some (object_names os ++ names, e)
          ]
        ]
  ]

-- `MAX_BATCH_SIZE`
abbrev pub max_batch_size : ℕ
max_batch_size = 100

-- `len(objectNames) >= MAX_BATCH_SIZE`
unfoldable pub is_full : List Str → Bool
is_full ps = leb max_batch_size (length ps)

-- The goroutine that fills `batchDeleteObjectsChan`, with the names that wait in `objectNames`.
unfoldable pub batches : List Str → List Str → List (List Str)
batches [] [] = []
batches (p ∷ ps) [] = (p ∷ ps) ∷ []
batches ps (n ∷ ns) = elim (is_full (ps ++ n ∷ [])) [
  | true ↦ (ps ++ n ∷ []) ∷ batches [] ns
  | false ↦ batches (ps ++ n ∷ []) ns
]
