-- ===== src/Plugin/Mount/Heard.antt =====
-- What the connector sends back, marshalToConn in connector/main.go, and what mountKodo in
-- plugin/utils.go makes of it.
use mathlib.Core.Path.{subst}
use mathlib.Core.List.{append-nil}
use kubernetes_csi_driver.Base.{
  ◌≡◌, refl, sym, ap, ◌∙◌, ◌⊎◌, inl, inr, Bool, false, true, List, [], ◌∷◌, ◌++◌, some, none, All,
  Result, ok, err, arith,
}
use kubernetes_csi_driver.Base.Integers.{ℤ}
use kubernetes_csi_driver.Text.{Str}
use kubernetes_csi_driver.Protocol.{
  Request, ResponseDataCmd, TerminateCmd, response_data_name, terminate_name,
}
use kubernetes_csi_driver.Connector.Streams.{
  Reader, running, has_exited, reporting, finished, Runner, Message, output, exit, Traffic, started,
  with_reader, Move, write, read, keep, drop, forward, end_of_output, terminate, report, keep_quiet,
  send_exit, leave, close_channel, hang_up, close_output, close_pipe, forward_fails, read_fails,
  exit_fails, Link, up, down, torn, Moves, stay, go_on,
}
use kubernetes_csi_driver.Plugin.Mount.Loop.{
  Decoders, Incoming, exit_result, kodo_loop, MountError, decode_failed,
}
use kubernetes_csi_driver.Plugin.Mount.Command.{make_request}
use kubernetes_csi_driver.Plugin.Mount.Verdict.{IsResponse, take_terminate, skip_responses}

-- `json.Marshal` at the two structs that the connector sends.
pub record Replies : Type 0 where
  pub response : ResponseDataCmd → Str
  pub terminate : TerminateCmd → Str

-- `marshalToConn`
unfoldable pub marshal_to_conn : Replies → Message → Request
marshal_to_conn json (output c) = make_request response_data_name (json.response c)
marshal_to_conn json (exit c) = make_request terminate_name (json.terminate c)

-- The plugin decodes the request that the connector wrote, and could write a reply.
abbrev pub incoming : Request → Incoming
incoming r = record { request = some r; writable = true }

unfoldable pub heard : Replies → List Message → List Incoming
heard json [] = []
heard json (m ∷ ms) = incoming (marshal_to_conn json m) ∷ heard json ms

-- What of a connection is left for the decoder after the messages that were sent.
unfoldable pub remainder : Link → List Incoming
remainder torn = record { request = none; writable = true } ∷ []
remainder _ = []

unfoldable pub end_of : Link → Result MountError (Unit {0})
end_of torn = err decode_failed
end_of _ = ok tt

-- The exit codes among some messages.
abbrev pub exits : List Message → List ℤ
exits [] = []
exits (output c ∷ ms) = exits ms
exits (exit c ∷ ms) = c.code ∷ exits ms

exits-append : (ms ns : List Message) → exits (ms ++ ns) ≡ exits ms ++ exits ns
exits-append [] ns = refl
exits-append (output c ∷ ms) ns = exits-append ms ns
exits-append (exit c ∷ ms) ns = ap (◌∷◌ c.code) (exits-append ms ns)

module _ (json : Decoders) (replies : Replies) where
  -- `json.Unmarshal` gives back the payload of a message.
  abbrev pub IsHeard : Message → Type 0
  IsHeard (output c) = json.response (replies.response c) ≡ some c
  IsHeard (exit c) = json.terminate (replies.terminate c) ≡ some c

  kodo_loop-output :
      (c : ResponseDataCmd) (ms : List Incoming)
      → IsHeard (output c)
      → kodo_loop json (incoming (marshal_to_conn replies (output c)) ∷ ms) ≡ kodo_loop json ms
  unfolding marshal_to_conn make_request
  kodo_loop-output c ms law =
      let sent = incoming (marshal_to_conn replies (output c)) in
      let response : IsResponse json sent = record {
        request = make_request response_data_name (replies.response c);
        body = c;
        decoded = refl;
        version = refl;
        cmd = refl;
        payload = law;
      } in
      skip_responses json (sent ∷ []) ms (response, tt)

  kodo_loop-exit :
      (c : TerminateCmd) (ms : List Incoming)
      → IsHeard (exit c)
      → kodo_loop json (incoming (marshal_to_conn replies (exit c)) ∷ ms) ≡ exit_result c.code
  unfolding marshal_to_conn make_request
  kodo_loop-exit c ms law = take_terminate json _ ms c.code (record {
    request = make_request terminate_name (replies.terminate c);
    body = c;
    decoded = refl;
    version = refl;
    cmd = refl;
    payload = law;
    exit_code = refl;
  })

  no_exit :
      (ms : List Message) (rest : List Incoming)
      → All IsHeard ms
      → exits ms ≡ []
      → kodo_loop json (heard replies ms ++ rest) ≡ kodo_loop json rest
  unfolding heard
  no_exit [] rest _ h = refl
  no_exit (output c ∷ ms) rest (law, laws) h =
      kodo_loop-output c (heard replies ms ++ rest) law ∙ no_exit ms rest laws h
  no_exit (exit c ∷ ms) rest (law, laws) h = cc

  first_exit :
      (ms : List Message) (rest : List Incoming) (code : ℤ) (codes : List ℤ)
      → All IsHeard ms
      → exits ms ≡ code ∷ codes
      → kodo_loop json (heard replies ms ++ rest) ≡ exit_result code
  unfolding heard
  first_exit [] rest code codes _ h = cc
  first_exit (output c ∷ ms) rest code codes (law, laws) h =
      kodo_loop-output c (heard replies ms ++ rest) law ∙ first_exit ms rest code codes laws h
  first_exit (exit c ∷ ms) rest code codes (law, laws) h =
      kodo_loop-exit c (heard replies ms ++ rest) law
      ∙ (let same : c.code ≡ code = ground arith in ap exit_result same)

  kodo_loop-remainder : (l : Link) → kodo_loop json (remainder l) ≡ end_of l
  unfolding remainder end_of kodo_loop
  kodo_loop-remainder up = refl
  kodo_loop-remainder down = refl
  kodo_loop-remainder torn = refl

-- What the state of the process says of the exit codes that were sent, of those that could not be
-- sent and of the session: until its goroutine has returned there are none.
abbrev Told : Runner → List ℤ → List ℤ → Bool → Type 0
Told (finished code) sent lost shut =
    (sent ≡ code ∷ []) ⊎ ((sent ≡ []) × ((lost ≡ code ∷ []) ⊎ (shut ≡ true)))
Told _ sent lost shut = (sent ≡ []) × (lost ≡ [])

abbrev Telling : Traffic → Type 0
Telling s = Told s.runner (exits s.delivered) (exits s.lost) s.is_closed

Told-same :
    (r q : Runner) (sent lost : List ℤ) (shut : Bool)
    → r ≡ q
    → Told r sent lost shut
    → Told q sent lost shut
Told-same r q sent lost shut h s = subst (λ t. Told t sent lost shut) h s

Told-shut :
    (r : Runner) (sent lost : List ℤ) (shut : Bool) → Told r sent lost shut → Told r sent lost true
Told-shut running sent lost shut h = h
Told-shut (has_exited code) sent lost shut h = h
Told-shut (reporting code) sent lost shut h = h
Told-shut (finished code) sent lost shut (inl said) = inl said
Told-shut (finished code) sent lost shut (inr (silent, inl missed)) = inr (silent, inl missed)
Told-shut (finished code) sent lost shut (inr (silent, inr closed)) = inr (silent, inr refl)

with_reader-keeps : (b : Bool) (r : Reader) (s : Traffic) → Telling s → Telling (with_reader b r s)
unfolding with_reader
with_reader-keeps false r s h = h
with_reader-keeps true r s h = h

exits-sent : (ms : List Message) (c : ResponseDataCmd) → exits (ms ++ (output c ∷ [])) ≡ exits ms
exits-sent ms c = exits-append ms (output c ∷ []) ∙ append-nil (exits ms)

Move-Telling : (s t : Traffic) → Move s t → Telling s → Telling t
Move-Telling s _ (write _ x at o) h = h
Move-Telling s _ (close_output _ o) h = h
Move-Telling s _ (close_pipe _ why o) h = h
Move-Telling s _ (read _ b x xs p u) h = with_reader-keeps b _ _ h
Move-Telling s _ (keep _ b x p o) h = with_reader-keeps b _ _ h
Move-Telling s _ (drop _ b x p shut) h = with_reader-keeps b _ _ h
Move-Telling s _ (forward _ b x p o there linked) h = with_reader-keeps b _ _ (
    subst (λ codes. Told s.runner codes (exits s.lost) s.is_closed)
      (sym (exits-sent s.delivered (record { is_error = b; text = x }))) h)
Move-Telling s _ (forward_fails _ b x l p o there fails) h = with_reader-keeps b _ _ h
Move-Telling s _ (end_of_output _ b p why) h = with_reader-keeps b _ _ h
Move-Telling s _ (read_fails _ b p) h = with_reader-keeps b _ _ h
Move-Telling s _ (terminate _ code p) h = Told-same s.runner running _ _ s.is_closed p h
Move-Telling s _ (report _ code p piped o) h =
    Told-same s.runner (has_exited code) _ _ s.is_closed p h
Move-Telling s _ (keep_quiet _ code p piped shut) h =
    inr ((Told-same s.runner (has_exited code) _ _ s.is_closed p h).0, inr shut)
Move-Telling s _ (send_exit _ code p o there linked) h = inl (
    exits-append s.delivered (exit (record { code = code }) ∷ [])
    ∙ ap (λ q. q ++ (code ∷ [])) (Told-same s.runner (reporting code) _ _ s.is_closed p h).0)
Move-Telling s _ (exit_fails _ code l p o there fails) h =
    let (silent, none_lost) = Told-same s.runner (reporting code) _ _ s.is_closed p h in
    inr (silent, inl (ap (◌∷◌ code) none_lost))
Move-Telling s _ (leave _ o) h = Told-shut s.runner _ _ s.is_closed h
Move-Telling s _ (close_channel _ shut o) h = h
Move-Telling s _ (hang_up _ there) h = h

Moves-Telling : (s : Traffic) → Moves started s → Telling s
unfolding started
Moves-Telling s (stay _) = (refl, refl)
Moves-Telling s (go_on _ t _ run move) = Move-Telling t s move (Moves-Telling t run)

-- However the goroutines of the connector take turns, when the process has ended with an exit code
-- and its goroutine has returned, one of two things holds. Either that code was sent, and mountKodo,
-- which reads what was sent, reports it. Or it was not sent, because the connector could not write
-- it or because the session was closed before; then mountKodo reports a success, or a decoding error
-- if a part of a message is all that follows on the connection. The hypothesis is that the plugin
-- decodes what the connector encoded.
pub session_verdict :
    (json : Decoders) (replies : Replies) (s : Traffic) (code : ℤ)
    → Moves started s
    → s.runner ≡ finished code
    → All (IsHeard json replies) s.delivered
    → let result = kodo_loop json (heard replies s.delivered ++ remainder s.link) in
      ((exits s.delivered ≡ code ∷ []) × (result ≡ exit_result code))
      ⊎ ((exits s.delivered ≡ [])
          × ((exits s.lost ≡ code ∷ []) ⊎ (s.is_closed ≡ true))
          × (result ≡ end_of s.link))
session_verdict json replies s code run done laws =
    elim (Told-same s.runner (finished code) _ _ s.is_closed done (Moves-Telling s run)) [
      | inl said ↦
          inl (said, first_exit json replies s.delivered (remainder s.link) code [] laws said)
      | inr (silent, why) ↦ inr (
        silent,
        why,
        no_exit json replies s.delivered (remainder s.link) laws silent
            ∙ kodo_loop-remainder json replies s.link,
      )
    ]
