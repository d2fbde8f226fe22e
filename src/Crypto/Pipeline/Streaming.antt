-- ===== src/Crypto/Pipeline/Streaming.antt =====
-- How the input is cut into chunks does not matter.
use cpp_essence.Prelude.{◌≡◌, refl, sym, ap, ◌∙◌, List, [], ◌∷◌, ◌++◌, Bytes, append_assoc}
use cpp_essence.Crypto.Pipeline.{Processing, pipe_update, pipe_finalize_from, pipe_all}

abbrev pub concat : List Bytes → Bytes
concat [] = []
concat (c ∷ cs) = c ++ concat cs

-- What OpenSSL documents of a context that is updated: an empty chunk leaves it as it is and makes
-- nothing, and two chunks do what one chunk of both does. Whether a call with an empty chunk also
-- reports success, as those of ciphers do and that of the base64 encoder does not, is not said here.
pub record IsStreaming {ℓ} {P : Type ℓ} (c : Processing P) : Type ℓ where
  pub update_nil : (p : P) → c.update p [] ≡ (p, [])
  pub update_append :
      (p : P) (xs ys : Bytes)
      → c.update p (xs ++ ys) ≡ (
        (c.update (c.update p xs).0 ys).0,
        (c.update p xs).1 ++ (c.update (c.update p xs).0 ys).1,
      )

module _ {ℓ} {P : Type ℓ} (c : Processing P) where
  open c use {update, finalize}

  -- All that a processor makes of an input in one piece.
  abbrev pub whole : P → Bytes → Bytes
  whole p input = (update p input).1 ++ (finalize (update p input).0).1

  -- One processor after the other, each on all that the one before it made.
  abbrev pub compose : List P → Bytes → Bytes
  compose [] input = input
  compose (p ∷ ps) input = compose ps (whole p input)

  abbrev after : P → List Bytes → P
  after p [] = p
  after p (chunk ∷ chunks) = after (update p chunk).0 chunks

  abbrev outputs : P → List Bytes → List Bytes
  outputs p [] = []
  outputs p (chunk ∷ chunks) = (update p chunk).1 ∷ outputs (update p chunk).0 chunks

  -- The outputs for these chunks, and for a last one behind which all is finalized.
  abbrev through : List P → List Bytes → Bytes → Bytes
  through ps [] last = (pipe_finalize_from c ps last).1
  through ps (chunk ∷ chunks) last =
      (pipe_update c ps chunk).1 ++ through (pipe_update c ps chunk).0 chunks last

  pipe_all-through :
      (p : P) (ps : List P) (chunks : List Bytes)
      → pipe_all c (p ∷ ps) chunks ≡ through ps (outputs p chunks) (finalize (after p chunks)).1
  unfolding pipe_all
  pipe_all-through p ps [] = refl
  pipe_all-through p ps (chunk ∷ chunks) =
      ap (◌++◌ (pipe_update c ps (update p chunk).1).1)
        (pipe_all-through (update p chunk).0 (pipe_update c ps (update p chunk).1).0 chunks)

  through-cons :
      (p : P) (ps : List P) (chunks : List Bytes) (last : Bytes)
      → through (p ∷ ps) chunks last ≡ through ps (outputs p chunks) (whole (after p chunks) last)
  unfolding pipe_update pipe_finalize_from
  through-cons p ps [] last = refl
  through-cons p ps (chunk ∷ chunks) last =
      ap (◌++◌ (pipe_update c ps (update p chunk).1).1)
        (through-cons (update p chunk).0 (pipe_update c ps (update p chunk).1).0 chunks last)

  through-nil :
      (chunks : List Bytes) (last : Bytes) → through [] chunks last ≡ concat chunks ++ last
  unfolding pipe_update pipe_finalize_from
  through-nil [] last = refl
  through-nil (chunk ∷ chunks) last =
      ap (◌++◌ chunk) (through-nil chunks last) ∙ sym (append_assoc chunk (concat chunks) last)

  module _ (laws : IsStreaming c) where
    open laws use {update_nil, update_append}

    update-concat :
        (p : P) (chunks : List Bytes)
        → update p (concat chunks) ≡ (after p chunks, concat (outputs p chunks))
    update-concat p [] = update_nil p
    update-concat p (chunk ∷ chunks) =
        update_append p chunk (concat chunks)
        ∙ ap (λ (r : P × Bytes). (r.0, (update p chunk).1 ++ r.1))
            (update-concat (update p chunk).0 chunks)

    whole-concat :
        (p : P) (chunks : List Bytes) (last : Bytes)
        → concat (outputs p chunks) ++ whole (after p chunks) last ≡ whole p (concat chunks ++ last)
    whole-concat p chunks last =
        rw (update_append p (concat chunks) last, update-concat p chunks)
          (sym (append_assoc (concat (outputs p chunks)) (update (after p chunks) last).1 _))

    through-compose :
        (ps : List P) (chunks : List Bytes) (last : Bytes)
        → through ps chunks last ≡ compose ps (concat chunks ++ last)
    through-compose [] chunks last = through-nil chunks last
    through-compose (p ∷ ps) chunks last =
        through-cons p ps chunks last
        ∙ through-compose ps (outputs p chunks) (whole (after p chunks) last)
        ∙ ap (compose ps) (whole-concat p chunks last)

    -- All that a chain of at least one processor gives out for an input, however it is cut into
    -- chunks, is what its processors make of it one after the other, each in one piece.
    pub pipe_all-compose :
        (p : P) (ps : List P) (chunks : List Bytes)
        → pipe_all c (p ∷ ps) chunks ≡ compose (p ∷ ps) (concat chunks)
    pipe_all-compose p ps chunks =
        pipe_all-through p ps chunks
        ∙ through-compose ps (outputs p chunks) (finalize (after p chunks)).1
        ∙ ap (compose ps) (rw (update-concat p chunks) refl)
