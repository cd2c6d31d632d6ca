-- ===== src/Steps/Tee/Forwarding.antt =====
-- Which messages src/StepLibrary/Tee.cpp sends on.
use hsqueue.Base.{
  ℕ, Bool, true, false, not, ◌&&◌, ◌||◌, List, [], ◌∷◌, ◌++◌, Option, none, some, if◌then◌else◌,
  codes, ◌≡◌, refl, sym, ap, ◌∙◌, if_of_true, if_of_false, Bool-cases, inl, inr,
}
use mathlib.Core.List.{append_assoc, append-nil}
use hsqueue.Message.{Message, Memory}
use hsqueue.Steps.Send.{Destination, send}
use hsqueue.Steps.Step.{same_text}
use hsqueue.Steps.Tee.{Tee, Sink, open_file, is_some, start, message_text, handle, handle_all}

-- The text of all the messages.
abbrev pub message_texts : Memory → List Message → List ℕ
message_texts mem [] = []
message_texts mem (m ∷ ms) = message_text mem m ++ message_texts mem ms

-- Whether the step has a stream once it has started.
abbrev pub has_output : (List ℕ → Bool) → Tee → Bool
has_output opens s =
    is_some s.out
    || same_text s.output_name (codes "cout")
    || same_text s.output_name (codes "cerr")
    || (not (same_text s.output_name (codes "null")) && opens s.output_name)

record Started (opens : List ℕ → Bool) (s s' : Tee) : Type 0 where
  output : is_some s'.out ≡ has_output opens s
  going : s'.stopping ≡ s.stopping
  written : s'.written ≡ s.written
  sent : s'.sent ≡ s.sent

-- The branches of `open_output`.
opened :
    (opens : List ℕ → Bool) (s : Tee) (cout_name cerr_name null_name opened : Bool)
    → s.out ≡ none
    → let s' =
        if cout_name
        then record s { out = some Sink.cout }
        else if cerr_name
        then record s { out = some Sink.cerr }
        else if null_name
        then record s { out = none }
        else open_file opened s in
      (is_some s'.out ≡ (cout_name || cerr_name || (not null_name && opened)))
      × (s'.stopping ≡ s.stopping)
      × (s'.written ≡ s.written)
      × (s'.sent ≡ s.sent)
opened opens s true cerr_name null_name b e = (refl, refl, refl, refl)
opened opens s false true null_name b e = (refl, refl, refl, refl)
opened opens s false false true b e = (refl, refl, refl, refl)
opened opens s false false false true e = (refl, refl, refl, refl)
opened opens s false false false false e = (ap is_some e, refl, refl, refl)

start-Started : (opens : List ℕ → Bool) (s : Tee) → Started opens s (start opens s)
unfolding start
start-Started opens s = elim (Bool-cases (is_some s.out)) [
  | inl have ↦ rw have (record { output = rw have; going = refl; written = refl; sent = refl })
  | inr without ↦
      let h =
        opened opens s (same_text s.output_name (codes "cout"))
          (same_text s.output_name (codes "cerr")) (same_text s.output_name (codes "null"))
          (opens s.output_name) (none_of s.out without) in
      rw without (record { output = rw without (h.0); going = h.1; written = h.2; sent = h.3 })
]
  where
    none_of : (o : Option Sink) → is_some o ≡ false → o ≡ none
    none_of none e = refl
    none_of (some x) e = cc e

module _ (receive : Destination) (mem : Memory) where
  abbrev written_to : Tee → Message → Tee
  written_to s m = record s { written = s.written ++ message_text mem m; sent = s.sent ++ m ∷ [] }

  handle_open :
      (s : Tee) (m : Message)
      → (not s.stopping && is_some s.out) ≡ true
      → (handle receive mem s m).0 ≡ written_to s m
  unfolding handle send
  handle_open s m e = ap (λ (r : Tee × Message). r.0) (if_of_true _ _ e)

  handle_shut :
      (s : Tee) (m : Message)
      → (not s.stopping && is_some s.out) ≡ false
      → (handle receive mem s m).0 ≡ s
  unfolding handle
  handle_shut s m e = ap (λ (r : Tee × Message). r.0) (if_of_false _ _ e)

  handle_all_open :
      (s : Tee) (ms : List Message)
      → (not s.stopping && is_some s.out) ≡ true
      → ((handle_all receive mem s ms).sent ≡ s.sent ++ ms)
        × ((handle_all receive mem s ms).written ≡ s.written ++ message_texts mem ms)
  handle_all_open s [] e = (sym (append-nil _), sym (append-nil _))
  handle_all_open s (m ∷ ms) e =
      let h = handle_all_open (written_to s m) ms e in
      (
        ap (λ s'. (handle_all receive mem s' ms).sent) (handle_open s m e)
            ∙ h.0
            ∙ append_assoc s.sent _ _,
        ap (λ s'. (handle_all receive mem s' ms).written) (handle_open s m e)
            ∙ h.1
            ∙ append_assoc s.written _ _,
      )

  handle_all_shut :
      (s : Tee) (ms : List Message)
      → (not s.stopping && is_some s.out) ≡ false
      → handle_all receive mem s ms ≡ s
  handle_all_shut s [] e = refl
  handle_all_shut s (m ∷ ms) e =
      ap (λ s'. handle_all receive mem s' ms) (handle_shut s m e) ∙ handle_all_shut s ms e

  -- A step that was not stopped writes and sends on every message, in order, if it has a stream when it
  -- starts: one that was attached, a standard stream by name, or a file that can be opened. With the
  -- output `null`, or a file that cannot be opened, it sends none of them.
  pub start-handle_all :
      (opens : List ℕ → Bool) (s : Tee) (ms : List Message)
      → s.stopping ≡ false
      → let s' = handle_all receive mem (start opens s) ms in
        (s'.sent ≡ s.sent ++ (if has_output opens s then ms else []))
        × (s'.written ≡ s.written ++ (if has_output opens s then message_texts mem ms else []))
  start-handle_all opens s ms going = elim (Bool-cases (has_output opens s)) [
    | inl have ↦
        let h = handle_all_open (start opens s) ms (ready ∙ have) in
        (
          h.0 ∙ ap (λ l. l ++ ms) st.sent ∙ ap (λ l. s.sent ++ l) (sym (if_of_true _ _ have)),
          h.1
              ∙ ap (λ l. l ++ message_texts mem ms) st.written
              ∙ ap (λ l. s.written ++ l) (sym (if_of_true _ _ have)),
        )
    | inr without ↦
        let h = handle_all_shut (start opens s) ms (ready ∙ without) in
        (
          ap (λ s'. s'.sent) h
              ∙ st.sent
              ∙ sym (append-nil s.sent)
              ∙ ap (λ l. s.sent ++ l) (sym (if_of_false _ _ without)),
          ap (λ s'. s'.written) h
              ∙ st.written
              ∙ sym (append-nil s.written)
              ∙ ap (λ l. s.written ++ l) (sym (if_of_false _ _ without)),
        )
  ]
    where
      st : Started opens s (start opens s)
      st = start-Started opens s

      ready : (not (start opens s).stopping && is_some (start opens s).out) ≡ has_output opens s
      ready = ap (λ b. not b && is_some (start opens s).out) (st.going ∙ going) ∙ st.output
