-- ===== src/Plugin/Kodo/Calls.antt =====
-- The calls of the Kodo client and of the mounter that the servers make, in their order, with the
-- results that end a request.
use kubernetes_csi_driver.Base.{List, [], ◌∷◌, ◌++◌, Option, none, some, Result, ok, err}
use kubernetes_csi_driver.Text.{Str}
use kubernetes_csi_driver.Plugin.Values.{ParseError}
use kubernetes_csi_driver.Plugin.Kodo.Volume.{PvError}

pub data Call : Type 0 where
  find_bucket : Str → Call
  create_bucket : Str → Str → Call
  get_s3_endpoint : Str → Call
  get_s3_region : Str → Call
  create_user : Str → Call
  get_key_pair : Str → Call
  create_policy : Str → Str → Call
  grant_policy : Str → Str → Call
  get_persistent_volume : Str → Call
  revoke_policy : Str → Str → Call
  delete_policy : Str → Call
  delete_user : Str → Call
  clean_objects : Str → Call
  delete_bucket : Str → Call

pub data ServerError (E : Type 0) : Type 0 where
  -- The parameters of a new volume are wrong.
  rejected : ParseError → ServerError E
  -- Those of an existing volume are.
  unreadable : PvError E → ServerError E
  -- A call returned an error, or nil.
  failed : Call → E → ServerError E
  missing : Call → ServerError E

-- What a request returns, with the calls that it made.
abbrev pub Outcome : Type 0 → Type 0 → Type 0
Outcome E A = Result (ServerError E) A × List Call

infixl 5 ◌>>=◌
abbrev pub ◌>>=◌ : {E A B : Type 0} → Outcome E A → (A → Outcome E B) → Outcome E B
(ok a, calls) >>= f = let o = f a in (o.0, calls ++ o.1)
(err e, calls) >>= f = (err e, calls)

abbrev pub done : {E A : Type 0} → A → Outcome E A
done a = (ok a, [])

-- `if err = client.F(…); err != nil { return }`
abbrev pub attempt : {E A : Type 0} → Call → Result E A → Outcome E A
attempt c (ok a) = (ok a, c ∷ [])
attempt c (err e) = (err (failed c e), c ∷ [])

-- `if x, err := client.F(…); err != nil { return } else if x == nil { return }`
abbrev pub require : {E A : Type 0} → Call → Result E (Option A) → Outcome E A
require c (ok (some a)) = (ok a, c ∷ [])
require c (ok none) = (err (missing c), c ∷ [])
require c (err e) = (err (failed c e), c ∷ [])
