-- ===== src/Tests/Streams.antt =====
-- Runs of the goroutines of a session, with a JSON of bare texts.
use kubernetes_csi_driver.Base.{
  ◌≡◌, ◌⊎◌, refl, true, false, inl, arith, List, [], ◌∷◌, ◌++◌, Option, none, some, ok, map,
}
use kubernetes_csi_driver.Base.Integers.{ℤ, pos}
use kubernetes_csi_driver.Text.{Str, lit, count}
use kubernetes_csi_driver.Protocol.{
  RequestDataCmd, ResponseDataCmd, TerminateCmd, request_data_name,
}
use kubernetes_csi_driver.Connector.{send_data, read_commands}
use kubernetes_csi_driver.Connector as Connector
use kubernetes_csi_driver.Connector.Streams.{
  has_read, sending, has_exited, reporting, finished, output, exit, Traffic, started, reader,
  with_reader, write, read, keep, forward, terminate, report, send_exit, close_pipe, Moves, stay,
  go_on, Panics,
}
use kubernetes_csi_driver.Connector.Streams.Account.{tally, output_accounted}
use kubernetes_csi_driver.Connector.Streams.Crash.{session_crashes}
use kubernetes_csi_driver.Plugin.Mount.{
  Decoders, continue, on_prompt, exit_result, kodo_loop, kodofs_loop, make_request,
}
use kubernetes_csi_driver.Plugin.Mount.Local.{local_answers}
use kubernetes_csi_driver.Plugin.Mount.Questions.{
  asked, kodofs_loop-local_answers, question_unanswered,
}
use kubernetes_csi_driver.Plugin.Mount.Wire.{
  Encoders, write_command, request_of, IsCarried, read_commands-write_command,
}
use kubernetes_csi_driver.Plugin.Mount.Heard.{
  Replies, heard, remainder, end_of, exits, session_verdict,
}

-- One chunk of output is delivered, and the process ends with 3.
abbrev talked : Traffic
talked = record started { written = lit "a" ∷ []; unread = lit "a" ∷ [] }

abbrev taken : Traffic
taken = record talked { unread = []; out_reader = has_read (lit "a") }

abbrev checked : Traffic
checked = record taken { out_reader = sending (lit "a") }

abbrev chunk : ResponseDataCmd
chunk = record { is_error = false; text = lit "a" }

abbrev told : Traffic
told = record started { written = lit "a" ∷ []; delivered = output chunk ∷ [] }

abbrev three : TerminateCmd
three = record { code = pos 3 }

abbrev done : Traffic
done = record told {
  pipe_closed = true;
  runner = finished (pos 3);
  delivered = output chunk ∷ exit three ∷ [];
}

told_run : Moves started told
unfolding started reader with_reader
told_run =
    go_on _ checked told
      (go_on _ taken checked
        (go_on _ talked taken
          (go_on _ started talked (stay started) (write started (lit "a") refl refl))
          (read talked false (lit "a") [] refl refl))
        (keep taken false (lit "a") refl refl))
      (forward checked false (lit "a") refl refl refl refl)

done_run : Moves started done
unfolding started
done_run =
    let ended = record told { runner = has_exited (pos 3) } in
    let piped = record ended { pipe_closed = true } in
    let telling = record piped { runner = reporting (pos 3) } in
    go_on _ telling done
      (go_on _ piped telling
        (go_on _ ended piped (go_on _ told ended told_run (terminate told (pos 3) refl))
          (close_pipe ended (inl (λ h. ground arith)) refl))
        (report piped (pos 3) refl refl refl))
      (send_exit telling (pos 3) refl refl refl refl)

output_accounted_example : tally (lit "a") done ≡ count (lit "a") (lit "a" ∷ [])
output_accounted_example = output_accounted done done_run (lit "a")

session_crashes_example : (s : Traffic) × Moves started s × Panics s
session_crashes_example = session_crashes (lit "a")

abbrev number : Str → Option TerminateCmd
number [] = none
number (n ∷ _) = some (record { code = pos n })

abbrev digits : ℤ → Str
digits (pos n) = n ∷ []
digits _ = []

abbrev pub json : Decoders
json = record { response = λ s. some (record { is_error = false; text = s }); terminate = number }

abbrev pub replies : Replies
replies = record { response = λ c. c.text; terminate = λ c. digits c.code }

session_verdict_example :
    let result = kodo_loop json (heard replies done.delivered ++ remainder done.link) in
    ((exits done.delivered ≡ pos 3 ∷ []) × (result ≡ exit_result (pos 3)))
    ⊎ ((exits done.delivered ≡ [])
        × ((exits done.lost ≡ pos 3 ∷ []) ⊎ (done.is_closed ≡ true))
        × (result ≡ end_of done.link))
session_verdict_example = session_verdict json replies done (pos 3) done_run refl (refl, (refl, tt))

question_unanswered_example :
    (s : Traffic) × (c : ResponseDataCmd) × Moves started s
    × (s.written ≡ lit "please enter the AccessToken:" ∷ [])
    × (s.delivered ≡ output c ∷ [])
    × (c.text ≡ lit "please enter the AccessToken:")
    × (on_prompt json (lit "m") (lit "t") c ≡ continue)
question_unanswered_example =
    question_unanswered json (lit "m") (lit "t") (lit "please enter the AccessToken:")

abbrev questions : List Str
questions = lit "hello" ∷ lit "please enter the AccessToken:" ∷ []

kodofs_loop-local_answers_example :
    kodofs_loop json (lit "m") (lit "t") (asked (λ c. c.text) questions)
    ≡ (ok tt, local_answers (lit "m") (lit "t") questions)
kodofs_loop-local_answers_example =
    kodofs_loop-local_answers json (λ c. c.text) (lit "m") (lit "t") questions (refl, (refl, tt))

-- A JSON that writes a request as its payload, and reads requests for data only.
abbrev encode : Encoders
encode = record {
  request = λ r. r.payload;
  init_kodofs = λ c. [];
  init_kodo = λ c. [];
  request_data = λ c. c.text;
  kodo_umount = λ c. [];
}

abbrev decode : Connector.Decoders
decode = record {
  request = λ line. some (make_request request_data_name line);
  init_kodofs = λ p. none;
  init_kodo = λ p. none;
  request_data = λ p. some (record { text = p });
  kodo_umount = λ p. none;
}

abbrev token : RequestDataCmd
token = record { text = lit "t" }

token-IsCarried : IsCarried encode decode (send_data token)
unfolding write_command request_of make_request
token-IsCarried = (refl, refl)

read_commands-write_command_example :
    read_commands decode (map (write_command encode) (send_data token ∷ []) ++ [])
    ≡ (send_data token ∷ []) ++ read_commands decode []
read_commands-write_command_example =
    read_commands-write_command encode decode (send_data token ∷ []) [] (token-IsCarried, tt)
