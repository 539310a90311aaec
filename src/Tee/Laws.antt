-- ===== src/Tee/Laws.antt =====
-- What is kept and what is passed on.
use always_cache.Base.{
  ℕ, Bool, true, false, List, [], ◌∷◌, ◌++◌, append_assoc, append-nil, ◌==◌, if◌then◌else◌, ◌≡◌,
  refl, sym, ap, ◌∙◌, arith, not, Bool-cases, inl, inr,
}
use always_cache.Go.Strings.{Str}
use always_cache.Go.Header.{Header, add}
use always_cache.Go.Http.{Platform}
use always_cache.Tee.{
  Sent, head, bytes, Client, ResponseSaver, copy_header, head_text, write_header, write, Act,
  set_field, set_status, put_bytes, act, run, append_bytes,
}

-- Several writes.
abbrev pub writes : List Str → List Act
writes [] = []
writes (b ∷ bs) = put_bytes b ∷ writes bs

-- Several fields.
abbrev pub set_fields : List (Str × Str) → List Act
set_fields [] = []
set_fields ((name, v) ∷ fields) = set_field name v ∷ set_fields fields

abbrev pub concat : List Str → Str
concat [] = []
concat (b ∷ bs) = b ++ concat bs

abbrev pub sent_bytes : List Str → List Sent
sent_bytes [] = []
sent_bytes (b ∷ bs) = bytes b ∷ sent_bytes bs

-- What reaches the client.
abbrev pub passed_on : Bool → List Sent → List Sent → List Sent
passed_on forwards before new = if forwards then before ++ new else before

passed_on-append :
    (f : Bool) (before new more : List Sent)
    → passed_on f (passed_on f before new) more ≡ passed_on f before (new ++ more)
passed_on-append true before new more = append_assoc before new more
passed_on-append false before new more = refl

sent_if :
    (c : Client) (s : Sent) (f : Bool)
    → (if f then record c { sent = c.sent ++ s ∷ [] } else c).sent ≡ passed_on f c.sent (s ∷ [])
sent_if c s true = refl
sent_if c s false = refl

passed_on-nil : (f : Bool) (before : List Sent) → before ≡ passed_on f before []
passed_on-nil true before = sym (append-nil before)
passed_on-nil false before = refl

module _ (platform : Platform) where
  write_wrote :
      (t : ResponseSaver) (b : Str) → t.wrote_headers ≡ true → write platform t b ≡ append_bytes t b
  unfolding write
  write_wrote t b e =
      ap (λ (w : Bool). append_bytes (if w then t else write_header platform t 200) b) e

  append_bytes-sent :
      (t : ResponseSaver) (b : Str)
      → (append_bytes t b).client.sent ≡ passed_on t.forwards t.client.sent (bytes b ∷ [])
  unfolding append_bytes
  append_bytes-sent t b = sent_if t.client (bytes b) t.forwards

  run_write :
      (t : ResponseSaver) (b : Str) (bs : List Str)
      → t.wrote_headers ≡ true
      → run platform t (writes (b ∷ bs)) ≡ run platform (append_bytes t b) (writes bs)
  unfolding run act
  run_write t b bs w = ap (λ (t' : ResponseSaver). run platform t' (writes bs)) (write_wrote t b w)

  run-writes :
      (t : ResponseSaver) (bs : List Str)
      → t.wrote_headers ≡ true
      → ((run platform t (writes bs)).buffer ≡ t.buffer ++ concat bs)
        × ((run platform t (writes bs)).status ≡ t.status)
        × ((run platform t (writes bs)).client.sent
            ≡ passed_on t.forwards t.client.sent (sent_bytes bs))
  unfolding append_bytes
  run-writes t [] w =
      unfold run in (sym (append-nil t.buffer), refl, passed_on-nil t.forwards t.client.sent)
  run-writes t (b ∷ bs) w =
      let (same_buffer, same_status, same_sent) = run-writes (append_bytes t b) bs w in
      rw (run_write t b bs w) (
        same_buffer ∙ append_assoc t.buffer b (concat bs),
        same_status,
        same_sent
            ∙ ap (λ (l : List Sent). passed_on t.forwards l (sent_bytes bs)) (append_bytes-sent t b)
            ∙ passed_on-append t.forwards t.client.sent (bytes b ∷ []) (sent_bytes bs),
      )

  write_header-forwards :
      (t : ResponseSaver) (code : ℕ)
      → t.forwards ≡ true
      → (write_header platform t code).forwards ≡ not (code == t.status_filter)
  unfolding write_header
  write_header-forwards t code f = ground arith

  write_header-sent :
      (t : ResponseSaver) (code : ℕ)
      → t.forwards ≡ true
      → (write_header platform t code).client.sent
        ≡ passed_on
            (not (code == t.status_filter))
            t.client.sent
            (head code (copy_header t.client.header t.header) ∷ [])
  unfolding write_header
  write_header-sent t code f = elim (Bool-cases (code == t.status_filter)) [
    | inl held ↦ ground arith
    | inr other ↦ ground arith
  ]

  passed_on-write_header :
      (t : ResponseSaver) (code : ℕ) (bs : List Str)
      → t.forwards ≡ true
      → passed_on
          (write_header platform t code).forwards
          (write_header platform t code).client.sent
          (sent_bytes bs)
        ≡ passed_on
            (not (code == t.status_filter))
            t.client.sent
            (head code (copy_header t.client.header t.header) ∷ sent_bytes bs)
  passed_on-write_header t code bs f =
      rw (write_header-forwards t code f, write_header-sent t code f)
        (passed_on-append (not (code == t.status_filter)) t.client.sent _ (sent_bytes bs))

  -- A status and the bytes written behind it, at a saver that forwards: the status line, the fields
  -- and the bytes are all kept, the status is kept, and all of it is passed on, unless the
  -- status is the one to be held back, in which case nothing reaches the client.
  pub run_response :
      (t : ResponseSaver) (code : ℕ) (bs : List Str)
      → t.forwards ≡ true
      → ((run platform t (set_status code ∷ writes bs)).buffer
          ≡ t.buffer ++ (head_text platform code t.header ++ concat bs))
        × ((run platform t (set_status code ∷ writes bs)).status ≡ code)
        × ((run platform t (set_status code ∷ writes bs)).client.sent
            ≡ passed_on
                (not (code == t.status_filter))
                t.client.sent
                (head code (copy_header t.client.header t.header) ∷ sent_bytes bs))
  unfolding run act
  run_response t code bs f =
      let t' = write_header platform t code in
      let (same_buffer, same_status, same_sent) = run-writes t' bs (unfold write_header in refl) in
      (
        same_buffer ∙ (unfold write_header in append_assoc t.buffer _ (concat bs)),
        same_status ∙ (unfold write_header in refl),
        same_sent ∙ passed_on-write_header t code bs f,
      )

  act_held_back :
      (t : ResponseSaver) (a : Act)
      → t.forwards ≡ false
      → ((act platform t a).forwards ≡ false) × ((act platform t a).client ≡ t.client)
  unfolding act write write_header append_bytes
  act_held_back t (set_field name v) f = ground arith
  act_held_back t (set_status code) f = ground arith
  act_held_back t (put_bytes b) f = ground arith

  -- Once a saver does not forward, nothing that is written to it changes the client.
  run_held_back :
      (t : ResponseSaver) (acts : List Act)
      → t.forwards ≡ false
      → (run platform t acts).client ≡ t.client
  unfolding run
  run_held_back t [] f = refl
  run_held_back t (a ∷ acts) f =
      let (still, same) = act_held_back t a f in run_held_back (act platform t a) acts still ∙ same

  -- Fields that are set before the status change the saver's header alone.
  pub run-set_fields :
      (t : ResponseSaver) (fields : List (Str × Str)) (rest : List Act)
      → (h : Header) × (run platform t (set_fields fields ++ rest)
          ≡ run platform (record t { header = h }) rest)
  unfolding run act
  run-set_fields t [] rest = (t.header, refl)
  run-set_fields t ((name, v) ∷ fields) rest =
      let (h, same) = run-set_fields (record t { header = add t.header name v }) fields rest in
      (h, same)
