-- ===== src/Plugin/Mount/Questions.antt =====
-- About the questions of kodofs: mountKodoFS and mountKodoFSLocally in plugin/utils.go, and the
-- readers of the output in connector/main.go.
use kubernetes_csi_driver.Base.{
  ◌≡◌, refl, true, false, List, [], ◌∷◌, none, some, inl, inr, Option-cases, arith, ok, All,
}
use kubernetes_csi_driver.Text.{Str, str_eq_refl}
use kubernetes_csi_driver.Protocol.{ResponseDataCmd, version_v2, response_data_name}
use kubernetes_csi_driver.Connector.Streams.{
  has_read, sending, output, Traffic, started, reader, with_reader, write, read, keep, forward,
  Moves, stay, go_on,
}
use kubernetes_csi_driver.Plugin.Mount.Loop.{
  Decoders, Incoming, continue, reply, on_prompt, on_kodofs_request, kodofs_loop,
}
use kubernetes_csi_driver.Plugin.Mount.Command.{make_request}
use kubernetes_csi_driver.Plugin.Mount.Local.{local_answer, local_answers}

-- A question that the connector sends, and that is asked of the loop of mountKodoFS.
abbrev pub asked : (ResponseDataCmd → Str) → List Str → List Incoming
asked marshal [] = []
asked marshal (text ∷ texts) =
    record {
      request =
          some
            (make_request response_data_name (marshal (record { is_error = false; text = text })));
      writable = true;
    }
    ∷ asked marshal texts

-- The plugin decodes what the connector encoded.
abbrev pub IsDecoded : Decoders → (ResponseDataCmd → Str) → Str → Type 0
IsDecoded json marshal text =
    let c : ResponseDataCmd = record { is_error = false; text = text } in
    json.response (marshal c) ≡ some c

module _ (json : Decoders) (marshal : ResponseDataCmd → Str) (master token : Str) where
  on_question :
      (c : ResponseDataCmd)
      → json.response (marshal c) ≡ some c
      → on_kodofs_request json master token (make_request response_data_name (marshal c))
        ≡ on_prompt json master token c
  unfolding on_kodofs_request make_request
  on_question c law =
      rw (str_eq_refl version_v2, str_eq_refl response_data_name, law, on_kodofs_request)

  not_asked :
      (text : Str)
      → local_answer master token text ≡ none
      → on_prompt json master token (record { is_error = false; text = text }) ≡ continue
  unfolding on_prompt local_answer
  not_asked text h = ground arith

  answered :
      (text answer : Str)
      → local_answer master token text ≡ some answer
      → on_prompt json master token (record { is_error = false; text = text }) ≡ reply answer
  unfolding on_prompt local_answer
  answered text answer h = ground arith

  -- mountKodoFS, which gets the output of kodofs from the connector, and mountKodoFSLocally, which
  -- runs kodofs itself, write the same answers to the same standard output, when the plugin decodes
  -- what the connector encoded and every write succeeds.
  pub kodofs_loop-local_answers :
      (texts : List Str)
      → All (IsDecoded json marshal) texts
      → kodofs_loop json master token (asked marshal texts)
        ≡ (ok tt, local_answers master token texts)
  unfolding kodofs_loop local_answers
  kodofs_loop-local_answers [] _ = refl
  kodofs_loop-local_answers (text ∷ texts) (law, laws) =
      let c : ResponseDataCmd = record { is_error = false; text = text } in
      elim (Option-cases (local_answer master token text)) [
        | inl silent ↦
            rw (kodofs_loop, on_question c law, not_asked text silent, silent, local_answers)
              (kodofs_loop-local_answers texts laws)
        | inr (answer, asked_for) ↦
            rw
              (
                kodofs_loop,
                on_question c law,
                answered text answer asked_for,
                asked_for,
                local_answers,
                kodofs_loop-local_answers texts laws,
              )
              refl
      ]

-- The standard output
abbrev asking : Str → Traffic
asking x = record started { written = x ∷ []; unread = x ∷ [] }

-- Whatever kodofs writes first, the session can deliver it as output of the standard error, and
-- then mountKodoFS does not answer it.
pub question_unanswered :
    (json : Decoders) (master token x : Str)
    → (s : Traffic) × (c : ResponseDataCmd) × Moves started s
      × (s.written ≡ x ∷ [])
      × (s.delivered ≡ output c ∷ [])
      × (c.text ≡ x)
      × (on_prompt json master token c ≡ continue)
unfolding started reader with_reader on_prompt
question_unanswered json master token x =
    let taken = record (asking x) { unread = []; err_reader = has_read x } in
    let held = record taken { err_reader = sending x } in
    let c : ResponseDataCmd = record { is_error = true; text = x } in
    let sent = record (asking x) { unread = []; delivered = output c ∷ [] } in
    (
      sent,
      c,
      go_on _ held sent
          (go_on _ taken held
            (go_on _ (asking x) taken
              (go_on _ started (asking x) (stay started) (write started x refl refl))
              (read (asking x) true x [] refl refl))
            (keep taken true x refl refl))
          (forward held true x refl refl refl refl),
      refl,
      refl,
      refl,
      refl,
    )
