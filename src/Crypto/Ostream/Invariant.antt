-- ===== src/Crypto/Ostream/Invariant.antt =====
-- What an open stream holds: the processor has taken all characters but those that are pending.
use cpp_essence.Prelude.{
  ℕ, ◌≤◌, ◌<◌, ◌≡◌, refl, sym, ap, subst, ◌∙◌, inl, inr, Bool, true, false, Bool-cases, Option,
  none, some, List, [], ◌∷◌, ◌++◌, Bytes, length, ltb, ltb→lt, arith, append_assoc, append-nil,
  length-append,
}
use cpp_essence.Crypto.Pipeline.{Processing}
use cpp_essence.Crypto.Pipeline.Streaming.{IsStreaming, whole}
use cpp_essence.Crypto.Ostream.{
  CipherStreambuf, process_buffer, put_char, overflow_with, sputc, sync, finalize_with,
  finalize_streambuf, close_with, close, Operation, put, flush, operate, operate_all, characters,
}
use cpp_essence.Crypto.Ostream.Calls.{
  none_left, Succeeds, accepted, process_buffer-open, sputc-full, sync-pending, sync-nothing,
}

module _ {ℓ} {P : Type ℓ} (c : Processing P) (laws : IsStreaming c) (succeeds : Succeeds c) (p : P)
    (old : Bytes) (n : ℕ) where
  open laws use {update_nil, update_append}

  -- The processor has taken the input but for what is pending.
  pub record Holds (input : Bytes) (b : CipherStreambuf P) : Type ℓ where
    pub passed : Bytes
    pub split : passed ++ b.pending ≡ input
    pub state : b.processor ≡ some (c.update p passed).0
    pub output : b.written ≡ old ++ (c.update p passed).1
    pub room : length b.pending ≤ n
    pub size : b.capacity ≡ n
    pub calm : b.raised ≡ false

  process_buffer-Holds :
      (input : Bytes) (b : CipherStreambuf P)
      → Holds input b
      → 0 < length b.pending
      → Holds input (process_buffer c b) × ((process_buffer c b).pending ≡ [])
  process_buffer-Holds input b h some_pending =
      subst (λ (r : CipherStreambuf P). Holds input r × (r.pending ≡ []))
        (sym (
          process_buffer-open c b (c.update p h.passed).0 h.state
            (accepted c succeeds (c.update p h.passed).0 b.pending some_pending)))
        (
          record {
            passed = input;
            split = append-nil input;
            state = ap some (ap (λ (r : P × Bytes). r.0) made);
            output =
                ap (λ (w : Bytes). w ++ (c.update (c.update p h.passed).0 b.pending).1) h.output
                ∙ append_assoc old (c.update p h.passed).1 _
                ∙ ap (λ (r : P × Bytes). old ++ r.1) made;
            room = omega arith;
            size = h.size;
            calm = refl;
          },
          refl,
        )
    where
      made :
          (
            (c.update (c.update p h.passed).0 b.pending).0,
            (c.update p h.passed).1 ++ (c.update (c.update p h.passed).0 b.pending).1,
          )
          ≡ c.update p input
      made = sym (update_append p h.passed b.pending) ∙ ap (c.update p) h.split

  put_char-Holds :
      (input : Bytes) (ch : ℕ) (b : CipherStreambuf P)
      → Holds input b
      → length b.pending < n
      → Holds (input ++ ch ∷ []) (put_char c ch b)
  unfolding put_char
  put_char-Holds input ch b h small = record {
    passed = h.passed;
    split =
        sym (append_assoc h.passed b.pending (ch ∷ [])) ∙ ap (λ (i : Bytes). i ++ ch ∷ []) h.split;
    state = h.state;
    output = h.output;
    room = omega (arith, small, length-append b.pending (ch ∷ []));
    size = h.size;
    calm = h.calm;
  }

  sputc-Holds :
      (input : Bytes) (ch : ℕ) (b : CipherStreambuf P)
      → 0 < n
      → Holds input b
      → ((sputc c ch b).0 ≡ true) × Holds (input ++ ch ∷ []) (sputc c ch b).1
  unfolding sputc overflow_with
  sputc-Holds input ch b some_room h = elim (Bool-cases (ltb (length b.pending) b.capacity)) [
    | inl small ↦ rw small (
      refl,
      put_char-Holds input ch b h
          (omega (arith, ltb→lt (length b.pending) b.capacity small, h.size)),
    )
    | inr full ↦
        let (next, empty) =
          process_buffer-Holds input b h (ground (arith, full, h.size, some_room)) in
        subst (λ (r : Bool × CipherStreambuf P). (r.0 ≡ true) × Holds (input ++ ch ∷ []) r.1)
          (sym (sputc-full c ch b (c.update p h.passed).0 h.state full next.calm))
          (
            refl,
            put_char-Holds input ch (process_buffer c b) next
                (subst (λ (xs : Bytes). length xs < n) (sym empty) some_room),
          )
  ]

  sync-Holds :
      (input : Bytes) (b : CipherStreambuf P)
      → Holds input b
      → ((sync c b).0 ≡ true) × Holds input (sync c b).1 × ((sync c b).1.pending ≡ [])
  sync-Holds input b h = elim (Bool-cases (ltb 0 (length b.pending))) [
    | inl some_pending ↦
        let (next, empty) =
          process_buffer-Holds input b h (ltb→lt 0 (length b.pending) some_pending) in
        subst
          (λ (r : Bool × CipherStreambuf P). (r.0 ≡ true) × Holds input r.1 × (r.1.pending ≡ []))
          (sym (sync-pending c b (c.update p h.passed).0 h.state some_pending next.calm))
          (refl, next, empty)
    | inr nothing ↦
        subst
          (λ (r : Bool × CipherStreambuf P). (r.0 ≡ true) × Holds input r.1 × (r.1.pending ≡ []))
          (sym (sync-nothing c b (c.update p h.passed).0 h.state nothing))
          (refl, h, none_left b.pending nothing)
  ]

  operate-Holds :
      (input : Bytes) (o : Operation) (b : CipherStreambuf P)
      → 0 < n
      → Holds input b
      → ((operate c o b).0 ≡ true) × Holds (input ++ characters (o ∷ [])) (operate c o b).1
  unfolding operate
  operate-Holds input (put ch) b some_room h = sputc-Holds input ch b some_room h
  operate-Holds input flush b some_room h =
      let (ok, next, empty) = sync-Holds input b h in
      (ok, subst (λ (xs : Bytes). Holds xs (sync c b).1) (sym (append-nil input)) next)

  characters-cons :
      (o : Operation) (os : List Operation)
      → characters (o ∷ os) ≡ characters (o ∷ []) ++ characters os
  characters-cons (put ch) os = refl
  characters-cons flush os = refl

  pub operate_all-Holds :
      (input : Bytes) (os : List Operation) (b : CipherStreambuf P)
      → 0 < n
      → Holds input b
      → ((operate_all c os b).0 ≡ true) × Holds (input ++ characters os) (operate_all c os b).1
  unfolding operate_all
  operate_all-Holds input [] b some_room h =
      (refl, subst (λ (xs : Bytes). Holds xs b) (sym (append-nil input)) h)
  operate_all-Holds input (o ∷ os) b some_room h =
      let (ok, next) = operate-Holds input o b some_room h in
      let (all, last) =
        operate_all-Holds (input ++ characters (o ∷ [])) os (operate c o b).1 some_room next in
      rw ok (
        all,
        subst (λ (xs : Bytes). Holds xs (operate_all c os (operate c o b).1).1)
            (append_assoc input (characters (o ∷ [])) (characters os)
              ∙ ap (λ (xs : Bytes). input ++ xs) (sym (characters-cons o os)))
            last,
      )

  finalize_with-open :
      (b : CipherStreambuf P) (q : P)
      → b.processor ≡ some q
      → finalize_with c b.processor b ≡ record b {
        processor = some (c.finalize q).0;
        written = b.written ++ (c.finalize q).1;
        raised = false;
      }
  unfolding finalize_with
  finalize_with-open b q e =
      ap (λ (o : Option P). finalize_with c o b) e ∙ rw (succeeds.ends q) refl

  finalize-written :
      (input : Bytes) (b : CipherStreambuf P)
      → Holds input b
      → ((finalize_streambuf c b).written ≡ old ++ whole c p input)
        × ((finalize_streambuf c b).raised ≡ false)
  unfolding finalize_streambuf
  finalize-written input b h =
      let (ok, next, empty) = sync-Holds input b h in
      let all : next.passed ≡ input =
        sym (append-nil next.passed)
        ∙ ap (λ (xs : Bytes). next.passed ++ xs) (sym empty)
        ∙ next.split in
      rw ok (
        subst (λ (r : CipherStreambuf P). (r.written ≡ old ++ whole c p input) × (r.raised ≡ false))
          (sym (finalize_with-open (sync c b).1 (c.update p next.passed).0 next.state))
          (
            ap (λ (w : Bytes). w ++ (c.finalize (c.update p next.passed).0).1) next.output
                ∙ append_assoc old (c.update p next.passed).1
                    (c.finalize (c.update p next.passed).0).1
                ∙ ap (λ (xs : Bytes). old ++ whole c p xs) all,
            refl,
          ))

  pub close-Holds :
      (input : Bytes) (b : CipherStreambuf P)
      → Holds input b
      → ((close c b).written ≡ old ++ whole c p input) × ((close c b).processor ≡ none)
  unfolding close close_with
  close-Holds input b h =
      let (written, calm) = finalize-written input b h in
      subst
        (λ (o : Option P).
          ((close_with c o b).written ≡ old ++ whole c p input)
          × ((close_with c o b).processor ≡ none))
        (sym h.state) (rw calm (written, refl))
