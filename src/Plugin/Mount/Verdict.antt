-- ===== src/Plugin/Mount/Verdict.antt =====
-- What the mount functions report, for any run of messages.
use mathlib.Core.List.{append-nil}
use kubernetes_csi_driver.Base.{◌≡◌, refl, ◌∙◌, false, List, [], ◌∷◌, ◌++◌, some, All, ok}
use kubernetes_csi_driver.Base.Integers.{ℤ}
use kubernetes_csi_driver.Text.{str_eq, str_eq_refl}
use kubernetes_csi_driver.Protocol.{
  Request, ResponseDataCmd, TerminateCmd, version_v2, response_data_name, terminate_name,
}
use kubernetes_csi_driver.Plugin.Mount.Loop.{
  Decoders, Incoming, exit_result, return, continue, on_terminate, on_kodo_request, kodo_loop,
}

names_differ : str_eq terminate_name response_data_name ≡ false
unfolding str_eq terminate_name response_data_name
names_differ = refl

module _ (json : Decoders) where
  -- A message with output of the mount program.
  pub record IsResponse (m : Incoming) : Type 0 where
    pub request : Request
    pub body : ResponseDataCmd
    pub decoded : m.request ≡ some request
    pub version : request.version ≡ version_v2
    pub cmd : request.cmd ≡ response_data_name
    pub payload : json.response request.payload ≡ some body

  -- A message with the exit code of the mount program.
  pub record IsTerminate (m : Incoming) (code : ℤ) : Type 0 where
    pub request : Request
    pub body : TerminateCmd
    pub decoded : m.request ≡ some request
    pub version : request.version ≡ version_v2
    pub cmd : request.cmd ≡ terminate_name
    pub payload : json.terminate request.payload ≡ some body
    pub exit_code : body.code ≡ code

  on_response :
      (r : Request) (body : ResponseDataCmd)
      → r.version ≡ version_v2
      → r.cmd ≡ response_data_name
      → json.response r.payload ≡ some body
      → on_kodo_request json r ≡ continue
  unfolding on_kodo_request
  on_response r body v c h =
      rw (v, c, str_eq_refl version_v2, str_eq_refl response_data_name, h, on_kodo_request)

  on_exit :
      (r : Request) (body : TerminateCmd)
      → r.version ≡ version_v2
      → r.cmd ≡ terminate_name
      → json.terminate r.payload ≡ some body
      → on_kodo_request json r ≡ return (exit_result body.code)
  unfolding on_kodo_request
  on_exit r body v c h = rw (
    v,
    c,
    str_eq_refl version_v2,
    names_differ,
    str_eq_refl terminate_name,
    h,
    on_kodo_request,
    on_terminate,
  )

  pub skip_responses :
      (rs ms : List Incoming) → All IsResponse rs → kodo_loop json (rs ++ ms) ≡ kodo_loop json ms
  unfolding kodo_loop
  skip_responses [] ms h = refl
  skip_responses (r ∷ rs) ms (h, hs) =
      rw (h.decoded, on_response h.request h.body h.version h.cmd h.payload, kodo_loop)
        (skip_responses rs ms hs)

  pub take_terminate :
      (m : Incoming) (ms : List Incoming) (code : ℤ)
      → IsTerminate m code
      → kodo_loop json (m ∷ ms) ≡ exit_result code
  unfolding kodo_loop
  take_terminate m ms code h =
      rw (h.decoded, on_exit h.request h.body h.version h.cmd h.payload, h.exit_code, kodo_loop)

  -- After any amount of output, mountKodo reports the exit code that the connector sends: success
  -- for 0, and otherwise an error with the code, whatever messages follow.
  pub kodo_loop-terminate :
      (rs : List Incoming) (m : Incoming) (code : ℤ) (ms : List Incoming)
      → All IsResponse rs
      → IsTerminate m code
      → kodo_loop json (rs ++ m ∷ ms) ≡ exit_result code
  kodo_loop-terminate rs m code ms h t = skip_responses rs (m ∷ ms) h ∙ take_terminate m ms code t

  -- If the connection ends after output alone, before any exit code, mountKodo reports success.
  pub kodo_loop-closed : (rs : List Incoming) → All IsResponse rs → kodo_loop json rs ≡ ok tt
  unfolding kodo_loop
  kodo_loop-closed rs h = rw (← append-nil rs) (skip_responses rs [] h)
