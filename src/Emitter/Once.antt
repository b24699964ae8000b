-- ===== src/Emitter/Once.antt =====
-- Listeners of `once` in emitter.ts.
use peer_server.Prelude.{
  ℕ, zero, suc, ◌+◌, ◌≤◌, ◌≡◌, refl, ap, ◌∙◌, sym, arith, inl, inr, ltb, leb, ◌&&◌, ◌==◌, Bool,
  Bool-cases, false, Option, none, some, List, [], ◌∷◌, ◌++◌, Text, text_eq_refl, if◌then◌else◌,
}
use peer_server.Dict
use peer_server.Dict.{Dict}
use mathlib.Core.List.{append_assoc}
use peer_server.Dict.Laws.{get-put, has-eq-get, is_some}
use peer_server.Emitter.{
  Fn, plain, wrapper, Emitter, Effect, called, error_handled, or_none, listeners_of, add, delete_fn,
  new_emitter, on, once, off, errors, call_all, emit, remove_all_listeners, Event, on_call,
  off_call, once_call, unsubscribe, emit_call, remove_call, step, run,
}

abbrev pub is_wrapper : ℕ → Fn → ℕ
is_wrapper n (plain x) = 0
is_wrapper n (wrapper m x) = if m == n then 1 else 0

unfoldable pub count_fns : ℕ → List Fn → ℕ
count_fns n [] = 0
count_fns n (f ∷ fs) = is_wrapper n f + count_fns n fs

unfoldable pub count_all : ℕ → Dict (List Fn) → ℕ
unfolding count_fns
count_all n [] = 0
count_all n ((ev, fs) ∷ d) = count_fns n fs + count_all n d

-- How often the wrapper is called.
unfoldable pub calls : ℕ → List Effect → ℕ
calls n [] = 0
calls n (called f ∷ es) = is_wrapper n f + calls n es
calls n (error_handled f ev ∷ es) = calls n es

calls-append : (n : ℕ) (es fs : List Effect) → calls n (es ++ fs) ≡ calls n es + calls n fs
unfolding calls
calls-append n [] fs = omega arith
calls-append n (called f ∷ es) fs = omega (arith, calls-append n es fs)
calls-append n (error_handled f ev ∷ es) fs = calls-append n es fs

count_fns-append :
    (n : ℕ) (fs gs : List Fn) → count_fns n (fs ++ gs) ≡ count_fns n fs + count_fns n gs
unfolding count_fns
count_fns-append n [] gs = omega arith
count_fns-append n (f ∷ fs) gs = omega (arith, count_fns-append n fs gs)

count_all-put :
    (n : ℕ) (ev : Text) (fs : List Fn) (d : Dict (List Fn))
    → count_all n (Dict.put ev fs d) + count_fns n (or_none (Dict.get ev d))
      ≡ count_all n d + count_fns n fs
unfolding count_all count_fns Dict.put Dict.get
count_all-put n ev fs [] = omega arith
count_all-put n ev fs ((j, gs) ∷ d) = ground (arith, count_all-put n ev fs d)

count_all-remove-le :
    (n : ℕ) (ev : Text) (d : Dict (List Fn)) → count_all n (Dict.remove ev d) ≤ count_all n d
unfolding count_all Dict.remove
count_all-remove-le n ev [] = omega arith
count_all-remove-le n ev ((j, gs) ∷ d) = ground (arith, count_all-remove-le n ev d)

count_fns-delete_fn-le :
    (n : ℕ) (f : Fn) (fs : List Fn) → count_fns n (delete_fn f fs) ≤ count_fns n fs
unfolding count_fns delete_fn
count_fns-delete_fn-le n f [] = omega arith
count_fns-delete_fn-le n f (g ∷ gs) = ground (arith, count_fns-delete_fn-le n f gs)

count_fns-add-le :
    (n : ℕ) (f : Fn) (fs : List Fn) → count_fns n (add f fs) ≤ count_fns n fs + is_wrapper n f
unfolding count_fns add
count_fns-add-le n f fs = ground (arith, count_fns-append n fs (f ∷ []))

off-le :
    (n : ℕ) (ev : Text) (f : Fn) (e : Emitter)
    → count_all n (off ev f e).listeners ≤ count_all n e.listeners
unfolding off listeners_of
off-le n ev f e =
    let gs = or_none (Dict.get ev e.listeners) in
    ground (arith, count_all-put n ev (delete_fn f gs) e.listeners, count_fns-delete_fn-le n f gs)

off_next : (ev : Text) (f : Fn) (e : Emitter) → e.next_wrapper ≤ (off ev f e).next_wrapper
unfolding off
off_next ev f e = ground arith

call_all-next :
    (ev : Text) (throws : Fn → Bool) (fs : List Fn) (e : Emitter)
    → e.next_wrapper ≤ (call_all ev throws fs e).0.next_wrapper
unfolding call_all
call_all-next ev throws [] e = omega arith
call_all-next ev throws (plain x ∷ fs) e = call_all-next ev throws fs e
call_all-next ev throws (wrapper n x ∷ fs) e =
    omega (arith, off_next ev (wrapper n x) e, call_all-next ev throws fs (off ev (wrapper n x) e))

AllPlain : List Fn → Type 0
AllPlain [] = Unit
AllPlain (plain x ∷ fs) = AllPlain fs
AllPlain (wrapper n x ∷ fs) = ⊥

AllPlain-append : (ps : List Fn) (x : ℕ) → AllPlain ps → AllPlain (ps ++ plain x ∷ [])
unfolding AllPlain
AllPlain-append [] x a = tt
AllPlain-append (plain y ∷ ps) x a = AllPlain-append ps x a
AllPlain-append (wrapper n y ∷ ps) x a = absurd a

delete_fn-after :
    (ps : List Fn) (m x : ℕ) (fs : List Fn)
    → AllPlain ps
    → delete_fn (wrapper m x) (ps ++ wrapper m x ∷ fs) ≡ ps ++ fs
unfolding delete_fn AllPlain
delete_fn-after [] m x fs a = ground arith
delete_fn-after (plain y ∷ ps) m x fs a = ap (λ l. plain y ∷ l) (delete_fn-after ps m x fs a)
delete_fn-after (wrapper n y ∷ ps) m x fs a = absurd a

some_there : (m x : ℕ) (ps fs : List Fn) → [] ≡ ps ++ wrapper m x ∷ fs → suc zero ≤ zero
unfolding count_fns
some_there m x ps fs e =
    ground (arith, ap (count_fns m) e, count_fns-append m ps (wrapper m x ∷ fs))

none_there : (o : Option (List Fn)) → is_some o ≡ false → or_none o ≡ []
none_there none h = refl
none_there (some fs) h = ground (arith, h)

count_head :
    (n : ℕ) (f : Fn) (fs : List Fn) → count_fns n (f ∷ fs) ≡ is_wrapper n f + count_fns n fs
unfolding count_fns
count_head n f fs = refl

-- A wrapper that takes itself off, after the plain listeners before it.
off-wrapper :
    (n : ℕ) (ev : Text) (m x : ℕ) (ps fs : List Fn) (e : Emitter)
    → AllPlain ps
    → listeners_of ev e ≡ ps ++ wrapper m x ∷ fs
    → (listeners_of ev (off ev (wrapper m x) e) ≡ ps ++ fs)
      × (count_all n (off ev (wrapper m x) e).listeners + is_wrapper n (wrapper m x)
          ≡ count_all n e.listeners)
unfolding off listeners_of
off-wrapper n ev m x ps fs e a there = elim (Bool-cases (Dict.has ev e.listeners)) [
  | inl has ↦
      let d = e.listeners in
      let after : List Fn = delete_fn (wrapper m x) (or_none (Dict.get ev d)) in
      let left : after ≡ ps ++ fs =
        ap (delete_fn (wrapper m x)) there ∙ delete_fn-after ps m x fs a in
      let found : or_none (Dict.get ev (Dict.put ev after d)) ≡ ps ++ fs =
        ap or_none (get-put ev ev after d)
        ∙ ap (λ b. or_none (if b then some after else Dict.get ev d)) (text_eq_refl ev)
        ∙ left in
      let counted : count_all n (Dict.put ev after d) + is_wrapper n (wrapper m x) ≡ count_all n d =
        ground (
          arith,
          count_all-put n ev after d,
          ap (count_fns n) there,
          ap (count_fns n) left,
          count_fns-append n ps fs,
          count_fns-append n ps (wrapper m x ∷ fs),
          count_head n (wrapper m x) fs,
        ) in
      rw has (found, counted)
  | inr gone ↦
      let nothing : [] ≡ ps ++ wrapper m x ∷ fs =
        sym (none_there (Dict.get ev e.listeners) (sym (has-eq-get ev e.listeners) ∙ gone))
        ∙ there in
      ground (arith, some_there m x ps fs nothing)
]

-- Each call of a wrapper takes it off.
call_all-count :
    (n : ℕ) (ev : Text) (throws : Fn → Bool) (ps fs : List Fn) (e : Emitter)
    → AllPlain ps
    → listeners_of ev e ≡ ps ++ fs
    → calls n (call_all ev throws fs e).1 + count_all n (call_all ev throws fs e).0.listeners
      ≡ count_all n e.listeners
unfolding call_all calls
call_all-count n ev throws ps [] e a h = omega arith
call_all-count n ev throws ps (plain x ∷ fs) e a h =
    let ih =
      call_all-count n ev throws (ps ++ plain x ∷ []) fs e (AllPlain-append ps x a)
        (h ∙ sym (append_assoc ps (plain x ∷ []) fs)) in
    ground (arith, ih, calls-append n (errors throws ev (plain x)) (call_all ev throws fs e).1)
call_all-count n ev throws ps (wrapper m x ∷ fs) e a h =
    let (there, counted) = off-wrapper n ev m x ps fs e a h in
    let e1 = off ev (wrapper m x) e in
    let ih = call_all-count n ev throws ps fs e1 a there in
    ground (
      arith,
      ih,
      counted,
      calls-append n (errors throws ev (wrapper m x)) (call_all ev throws fs e1).1,
    )

-- 1 for a wrapper made while the next number went from `k` to `l`.
abbrev made : ℕ → ℕ → ℕ → ℕ
made n k l = if leb k n && ltb n l then 1 else 0

on-le :
    (n : ℕ) (ev : Text) (f : Fn) (e : Emitter)
    → count_all n (on ev f e).listeners ≤ count_all n e.listeners + is_wrapper n f
unfolding on listeners_of
on-le n ev f e =
    let gs = or_none (Dict.get ev e.listeners) in
    omega (arith, count_all-put n ev (add f gs) e.listeners, count_fns-add-le n f gs)

step-count :
    (n : ℕ) (x : Event) (e : Emitter)
    → (calls n (step x e).1 + count_all n (step x e).0.listeners
        ≤ count_all n e.listeners + made n e.next_wrapper (step x e).0.next_wrapper)
      × (e.next_wrapper ≤ (step x e).0.next_wrapper)
unfolding step calls AllPlain
step-count n (on_call ev x) e =
    let h = on-le n ev (plain x) e in (omega (arith, h), unfold on in omega arith)
step-count n (off_call ev x) e =
    let h = off-le n ev (plain x) e in (omega (arith, h), off_next ev (plain x) e)
step-count n (once_call ev x) e =
    let h =
      on-le n ev (wrapper e.next_wrapper x) (record e { next_wrapper = suc e.next_wrapper }) in
    (unfold once on in ground (arith, h), unfold once on in omega arith)
step-count n (unsubscribe ev m x) e =
    let h = off-le n ev (wrapper m x) e in (omega (arith, h), off_next ev (wrapper m x) e)
step-count n (emit_call ev throws) e =
    let h = call_all-count n ev throws [] (listeners_of ev e) e tt refl in
    (unfold emit in omega (arith, h), unfold emit in call_all-next ev throws (listeners_of ev e) e)
step-count n (remove_call none) e = (
  unfold remove_all_listeners count_all in omega arith,
  unfold remove_all_listeners in omega arith,
)
step-count n (remove_call (some ev)) e =
    let h = count_all-remove-le n ev e.listeners in
    (unfold remove_all_listeners in omega (arith, h), unfold remove_all_listeners in omega arith)

run-count :
    (n : ℕ) (xs : List Event) (e : Emitter)
    → (calls n (run xs e).1 + count_all n (run xs e).0.listeners
        ≤ count_all n e.listeners + made n e.next_wrapper (run xs e).0.next_wrapper)
      × (e.next_wrapper ≤ (run xs e).0.next_wrapper)
unfolding run calls
run-count n [] e = (omega arith, omega arith)
run-count n (x ∷ xs) e =
    let (e1, es) = step x e in
    let (a, b) = step-count n x e in
    let (c, d) = run-count n xs e1 in
    (ground (arith, a, b, c, d, calls-append n es (run xs e1).1), omega (arith, b, d))

-- Over any run of a new emitter, a listener put on by `once` is called once at most, and where it has
-- been called it stands under no event any more, whether listeners throw or not.
pub run-calls_once :
    (n : ℕ) (xs : List Event)
    → calls n (run xs new_emitter).1 + count_all n (run xs new_emitter).0.listeners ≤ 1
unfolding new_emitter count_all
run-calls_once n xs = let (a, b) = run-count n xs new_emitter in ground (arith, a)
