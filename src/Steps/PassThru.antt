-- ===== src/Steps/PassThru.antt =====
-- src/StepLibrary/BinaryPassThru.cpp, ForwardPassThru.cpp and CopyPassThru.hpp: steps that send each
-- message on, as it is or as a copy. Their one destination has the index 0.
use hsqueue.Base.{
  ℕ, ◌≡◌, ◌<◌, Bool, false, [], ◌∷◌, ◌++◌, if◌then◌else◌, add32, Result, ok, err, refl, ap, ◌∙◌,
  if_of_false, arith, sym, w64,
}
use hsqueue.Message.{
  Message, Memory, get, copy_bytes, emplace, set_used, append_binary_copy, get_write_position,
}
use hsqueue.Steps.Copying.{World, Receiver, parcel, send_to, send_copy, send_copied}
use hsqueue.Steps.Copying.Copies.{IsReady, Respects, send_copy_lem}

-- `ForwardPassThru` has no output message and does not use this one.
pub record PassThru : Type 0 where
  pub stopping : Bool
  pub messages_handled : ℕ
  pub world : World
  pub out_message : Message

abbrev pub make_pass_thru : World → Message → PassThru
make_pass_thru world out = record {
  stopping = false;
  messages_handled = 0;
  world = world;
  out_message = out;
}

abbrev pub count_sent : PassThru → Result {0} Unit × World × Message → Result {0} Unit × PassThru
count_sent s (err e, world, out) = (err e, record s { world = world; out_message = out })
count_sent s (ok _, world, out) = (
  ok tt,
  record s { messages_handled = add32 s.messages_handled 1; world = world; out_message = out },
)

-- `BinaryPassThru::handle`
unfoldable pub binary_handle : Receiver → PassThru → Message → Result {0} Unit × PassThru
binary_handle receive s m =
    if s.stopping then (ok tt, s) else count_sent s (send_copy receive 0 m (s.world, s.out_message))

-- `ForwardPassThru::handle`: the message itself is sent.
unfoldable pub forward_handle : Receiver → PassThru → Message → PassThru × Message
forward_handle receive s m =
    let (world, m') = send_to receive 0 s.world m in
    if s.stopping
    then (s, m)
    else (record s { messages_handled = add32 s.messages_handled 1; world = world }, m')

-- The object of the message is copied to the start of the output message: its constructor copies
-- its `size` bytes.
abbrev pub copy_object :
    ℕ → Receiver → Message → World × Message → Result {0} Unit × World × Message
copy_object size receive m (w, out) =
    send_copied receive 0 m (w, out)
      (emplace size (λ target mem. copy_bytes mem (get m) target size) w.memory out)

-- `CopyPassThru<CargoType>::handle`, with `size` the size of the type.
unfoldable pub copy_handle : ℕ → Receiver → PassThru → Message → Result {0} Unit × PassThru
copy_handle size receive s m =
    if s.stopping
    then (ok tt, s)
    else count_sent s (copy_object size receive m (s.world, s.out_message))

-- The object's copy and the binary copy of as many bytes are the same call.
emplace-append :
    (size : ℕ) (mem : Memory) (source : ℕ) (out : Message)
    → out.used ≡ 0
    → size < w64
    → emplace size (λ target mem. copy_bytes mem source target size) mem out
      ≡ append_binary_copy 1 mem out source size
unfolding emplace append_binary_copy set_used get get_write_position
emplace-append size mem source out emptied small = ground (arith, emptied)

copy_object-send_copy :
    (receive : Receiver) (m : Message) (w : World) (out : Message)
    → out.used ≡ 0
    → m.used < w64
    → copy_object m.used receive m (w, out) ≡ send_copy receive 0 m (w, out)
unfolding send_copy
copy_object-send_copy receive m w out emptied small =
    ap (send_copied receive 0 m (w, out)) (emplace-append m.used w.memory (get m) out emptied small)

-- A message with its bytes exactly an object: not stopping, with destinations that do not write to
-- its block and an empty output message large enough, the binary and the typed copy do the same, and
-- their destination gets what it gets from the step that only forwards: the message's bytes and meta
-- information. All of them count it.
pub pass_thru_lem :
    (receive : Receiver) (s : PassThru) (m : Message)
    → Respects receive m
    → IsReady m s.out_message
    → s.stopping ≡ false
    → (s' : PassThru) × (binary_handle receive s m ≡ (ok tt, s'))
      × (copy_handle m.used receive s m ≡ (ok tt, s'))
      × (s'.world.sent ≡ s.world.sent ++ (0, parcel s.world.memory m) ∷ [])
      × ((forward_handle receive s m).0.world.sent ≡ s'.world.sent)
      × (s'.messages_handled ≡ add32 s.messages_handled 1)
      × ((forward_handle receive s m).0.messages_handled ≡ s'.messages_handled)
unfolding binary_handle copy_handle forward_handle send_to
pass_thru_lem receive s m keeps r going =
    let (w', out', e, c) = send_copy_lem receive m keeps 0 s.world s.out_message r in
    let small : m.used < w64 = omega (arith, r.room, r.valid.small) in
    (
      _,
      if_of_false _ _ going ∙ ap (count_sent s) e,
      if_of_false _ _ going
          ∙ ap (count_sent s)
              (copy_object-send_copy receive m s.world s.out_message r.emptied small ∙ e),
      c.sends,
      ap (λ (p : PassThru × Message). p.0.world.sent) (if_of_false _ _ going) ∙ sym c.sends,
      refl,
      ap (λ (p : PassThru × Message). p.0.messages_handled) (if_of_false _ _ going),
    )
