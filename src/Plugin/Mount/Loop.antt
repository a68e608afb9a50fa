-- ===== src/Plugin/Mount/Loop.antt =====
-- The loops over the messages of the connector.
use kubernetes_csi_driver.Base.{
  Bool, List, [], ◌∷◌, ◌++◌, Option, none, some, if◌then◌else◌, Result, ok, err,
}
use kubernetes_csi_driver.Base.Integers.{ℤ, is_zero}
use kubernetes_csi_driver.Text.{Str, lit, str_eq, contains}
use kubernetes_csi_driver.Protocol.{
  Request, ResponseDataCmd, TerminateCmd, version_v2, response_data_name, terminate_name,
}

-- `json.Unmarshal` at the two structs that the plugin receives.
pub record Decoders : Type 0 where
  pub response : Str → Option ResponseDataCmd
  pub terminate : Str → Option TerminateCmd

pub data MountError : Type 0 where
  dial_failed write_failed decode_failed payload_failed : MountError
  unrecognized_version : Str → MountError
  unexpected_code : ℤ → MountError

-- One message: what `decoder.Decode` makes of it (`none` is an error), and whether a reply to it
-- can be written.
pub record Incoming : Type 0 where
  pub request : Option Request
  pub writable : Bool

-- What the loop does after a message: return, or go on, perhaps with a reply.
pub data Next : Type 0 where
  return : Result MountError (Unit {0}) → Next
  continue : Next
  reply : Str → Next

abbrev pub exit_result : ℤ → Result MountError (Unit {0})
exit_result code = if is_zero code then ok tt else err (unexpected_code code)

module _ (json : Decoders) where
  -- `case protocol.TerminateCmdName`
  unfoldable pub on_terminate : Request → Next
  on_terminate r = elim (json.terminate r.payload) [
    | none ↦ return (err payload_failed)
    | some t ↦ return (exit_result t.code)
  ]

  -- A message to mountKodo.
  unfoldable pub on_kodo_request : Request → Next
  unfolding on_terminate
  on_kodo_request r =
      if str_eq r.version version_v2
      then (if str_eq r.cmd response_data_name
          then elim (json.response r.payload) [
            | none ↦ return (err payload_failed)
            | some _ ↦ continue
          ]
          else if str_eq r.cmd terminate_name
          then on_terminate r
          else continue)
      else return (err (unrecognized_version r.version))

  -- `for decoder.More() { … }` in mountKodo: the end of the connection is a success.
  unfoldable pub kodo_loop : List Incoming → Result MountError (Unit {0})
  kodo_loop [] = ok tt
  kodo_loop (m ∷ ms) = elim m.request [
    | none ↦ err decode_failed
    | some r ↦ elim (on_kodo_request r) [
      | return result ↦ result
      | continue ↦ kodo_loop ms
      | reply _ ↦ kodo_loop ms
    ]
  ]

  module _ (master_address access_token : Str) where
    -- The prompts of the kodofs program.
    unfoldable pub on_prompt : ResponseDataCmd → Next
    on_prompt c =
        if c.is_error
        then continue
        else if contains c.text
            (lit "please enter the master address(separate multiple addresses with commas):")
        then reply (master_address ++ lit "\n")
        else if contains c.text (lit "please enter the AccessToken:")
        then reply (access_token ++ lit "\n")
        else continue

    -- A message to mountKodoFS.
    unfoldable pub on_kodofs_request : Request → Next
    unfolding on_terminate on_prompt
    on_kodofs_request r =
        if str_eq r.version version_v2
        then (if str_eq r.cmd response_data_name
            then elim (json.response r.payload) [
              | none ↦ return (err payload_failed)
              | some c ↦ on_prompt c
            ]
            else if str_eq r.cmd terminate_name
            then on_terminate r
            else continue)
        else return (err (unrecognized_version r.version))

    -- The loop of mountKodoFS, with the replies that it writes.
    unfoldable pub kodofs_loop : List Incoming → Result MountError (Unit {0}) × List Str
    kodofs_loop [] = (ok tt, [])
    kodofs_loop (m ∷ ms) = elim m.request [
      | none ↦ (err decode_failed, [])
      | some r ↦ elim (on_kodofs_request r) [
        | return result ↦ (result, [])
        | continue ↦ kodofs_loop ms
        | reply text ↦
            if m.writable
            then (let rest = kodofs_loop ms in (rest.0, text ∷ rest.1))
            else (err write_failed, [])
      ]
    ]
