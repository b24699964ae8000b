-- ===== src/Tests/Listeners.antt =====
-- An emitter of emitter.ts with a listener that stays, one that is put on by `once`, and one that throws.
use peer_server.Prelude.{◌+◌, ◌≡◌, ◌≤◌, refl, false, List, [], ◌∷◌, Text, text_eq}
use peer_server.Dict
use peer_server.Emitter.{
  plain, wrapper, called, error_handled, new_emitter, same_fn, Event, on_call, once_call, emit_call,
  run,
}
use peer_server.Emitter.Once.{calls, count_all, run-calls_once}

abbrev ready : Text
ready = 114 ∷ []

abbrev story : List Event
story =
    on_call ready 1
    ∷ once_call ready 2
    ∷ on_call ready 3
    ∷ emit_call ready (λ f. same_fn f (plain 1))
    ∷ emit_call ready (λ f. false)
    ∷ []

run-calls_once_example :
    calls 0 (run story new_emitter).1 + count_all 0 (run story new_emitter).0.listeners ≤ 1
run-calls_once_example = run-calls_once 0 story

-- The first listener throws, and the others are called all the same.
story-calls :
    (run story new_emitter).1
    ≡ called (plain 1)
      ∷ error_handled (plain 1) ready
      ∷ called (wrapper 0 2)
      ∷ called (plain 3)
      ∷ called (plain 1)
      ∷ called (plain 3)
      ∷ []
unfolding run new_emitter Dict.put Dict.get Dict.has text_eq
story-calls = refl
