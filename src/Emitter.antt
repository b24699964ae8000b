-- ===== src/Emitter.antt =====
-- packages/peer-client/src/core/emitter.ts, class Emitter. A function is a number; the wrapper that
-- `once` makes is a new function, numbered too, around the one it is given. A `Set` of functions is
-- a list without repetitions in the order of insertion. Listeners that put listeners on or take
-- others off while an event is emitted are left out.
pub mod Once
use peer_server.Prelude.{
  ℕ, suc, ◌&&◌, ◌==◌, Bool, true, false, Option, none, some, List, [], ◌∷◌, ◌++◌, Text, length,
  if◌then◌else◌,
}
use peer_server.Dict
use peer_server.Dict.{Dict}

pub data Fn : Type 0 where
  plain : ℕ → Fn
  wrapper : ℕ → ℕ → Fn

abbrev pub same_fn : Fn → Fn → Bool
same_fn (plain x) (plain y) = x == y
same_fn (wrapper m x) (wrapper n y) = m == n && x == y
same_fn _ _ = false

pub record Emitter : Type 0 where
  pub listeners : Dict (List Fn)
  pub next_wrapper : ℕ

pub data Effect : Type 0 where
  called : Fn → Effect
  -- the global error handler, with what the listener threw
  error_handled : Fn → Text → Effect

abbrev pub or_none : Option (List Fn) → List Fn
or_none none = []
or_none (some fs) = fs

unfoldable pub listeners_of : Text → Emitter → List Fn
listeners_of ev e = or_none (Dict.get ev e.listeners)

unfoldable pub among : Fn → List Fn → Bool
among f [] = false
among f (g ∷ gs) = if same_fn g f then true else among f gs

unfoldable pub add : Fn → List Fn → List Fn
unfolding among
add f fs = if among f fs then fs else fs ++ f ∷ []

unfoldable pub delete_fn : Fn → List Fn → List Fn
delete_fn f [] = []
delete_fn f (g ∷ gs) = let rest = delete_fn f gs in if same_fn g f then gs else g ∷ rest

unfoldable pub new_emitter : Emitter
new_emitter = record { listeners = []; next_wrapper = 0 }

unfoldable pub on : Text → Fn → Emitter → Emitter
unfolding listeners_of add
on ev f e = record e { listeners = Dict.put ev (add f (listeners_of ev e)) e.listeners }

unfoldable pub once : Text → ℕ → Emitter → Emitter
unfolding on
once ev x e = on ev (wrapper e.next_wrapper x) (record e { next_wrapper = suc e.next_wrapper })

unfoldable pub off : Text → Fn → Emitter → Emitter
unfolding listeners_of delete_fn
off ev f e =
    if Dict.has ev e.listeners
    then record e { listeners = Dict.put ev (delete_fn f (listeners_of ev e)) e.listeners }
    else e

abbrev pub errors : (Fn → Bool) → Text → Fn → List Effect
errors throws ev f = if throws f then error_handled f ev ∷ [] else []

-- What `emit` does for one listener after the other; a wrapper takes itself off first.
unfoldable pub call_all : Text → (Fn → Bool) → List Fn → Emitter → Emitter × List Effect
unfolding off
call_all ev throws [] e = (e, [])
call_all ev throws (plain x ∷ fs) e =
    let (e', es) = call_all ev throws fs e in
    (e', called (plain x) ∷ errors throws ev (plain x) ++ es)
call_all ev throws (wrapper n x ∷ fs) e =
    let (e', es) = call_all ev throws fs (off ev (wrapper n x) e) in
    (e', called (wrapper n x) ∷ errors throws ev (wrapper n x) ++ es)

unfoldable pub emit : Text → (Fn → Bool) → Emitter → Emitter × List Effect
unfolding call_all listeners_of
emit ev throws e = call_all ev throws (listeners_of ev e) e

unfoldable pub listener_count : Text → Emitter → ℕ
unfolding listeners_of
listener_count ev e = length (listeners_of ev e)

unfoldable pub remove_all_listeners : Option Text → Emitter → Emitter
remove_all_listeners none e = record e { listeners = [] }
remove_all_listeners (some ev) e = record e { listeners = Dict.remove ev e.listeners }

pub data Event : Type 0 where
  on_call off_call : Text → ℕ → Event
  once_call : Text → ℕ → Event
  -- the function that `once` returns takes the wrapper off
  unsubscribe : Text → ℕ → ℕ → Event
  emit_call : Text → (Fn → Bool) → Event
  remove_call : Option Text → Event

unfoldable pub step : Event → Emitter → Emitter × List Effect
unfolding on off once emit remove_all_listeners
step (on_call ev x) e = (on ev (plain x) e, [])
step (off_call ev x) e = (off ev (plain x) e, [])
step (once_call ev x) e = (once ev x e, [])
step (unsubscribe ev n x) e = (off ev (wrapper n x) e, [])
step (emit_call ev throws) e = emit ev throws e
step (remove_call o) e = (remove_all_listeners o e, [])

unfoldable pub run : List Event → Emitter → Emitter × List Effect
unfolding step
run [] e = (e, [])
run (x ∷ xs) e = let (e1, es) = step x e in let (e2, fs) = run xs e1 in (e2, es ++ fs)
