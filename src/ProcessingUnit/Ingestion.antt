-- ===== src/ProcessingUnit/Ingestion.antt =====
-- Texts between `Ingest` and the analysis thread of src/core/ProcessingUnit.cpp.
use hyperion_euntime_environ.Base.{
  ℕ, zero, suc, ◌-◌, ◌^◌, ◌≡◌, refl, ap, ◌∙◌, Bool, true, Option, none, some, List, [], ◌∷◌,
  if◌then◌else◌, length, Bool-cases, inl, inr, arith,
}
use hyperion_euntime_environ.Ring.{Ring, pop}
use hyperion_euntime_environ.Ring.Refine.{Holds, enqueue, dequeue, push_refines, pop_refines}
use hyperion_euntime_environ.Tokenizer.{is_empty}
use hyperion_euntime_environ.ProcessingUnit.{
  Text, ProcessingUnit, queue_bits, ingest, next_document,
}

abbrev pub ingest_all : ProcessingUnit → List Text → ProcessingUnit
ingest_all u [] = u
ingest_all u (text ∷ texts) = ingest_all (ingest u text) texts

-- The documents of some turns of the analysis thread.
abbrev pub documents : ℕ → ProcessingUnit → List Text
documents zero u = []
documents (suc n) u =
    let (content, u') = next_document u in
    elim content [ none ↦ documents n u' | some text ↦ text ∷ documents n u' ]

-- What the queue has room for of the texts that come, and the texts of no characters left out.
abbrev pub accept : List Text → List Text → List Text
accept q [] = q
accept q (text ∷ texts) =
    accept (if is_empty text then q else (enqueue (2 ^ queue_bits - 1) q text).1) texts

ingest-Holds :
    (u : ProcessingUnit) (q : List Text) (text : Text)
    → Holds queue_bits u.input_queue q
    → Holds queue_bits
        (ingest u text).input_queue
        (if is_empty text then q else (enqueue (2 ^ queue_bits - 1) q text).1)
unfolding ingest
ingest-Holds u q text h = elim (Bool-cases (is_empty text)) [
  | inl empty ↦ rw (empty, ingest) h
  | inr full ↦ rw (full, ingest) (push_refines queue_bits (omega arith) u.input_queue q text h).1
]

ingest-running : (u : ProcessingUnit) (text : Text) → (ingest u text).running ≡ u.running
unfolding ingest
ingest-running u text = elim (Bool-cases (is_empty text)) [
  | inl empty ↦ rw (empty, ingest) refl
  | inr full ↦ rw (full, ingest) refl
]

ingest_all-Holds :
    (u : ProcessingUnit) (q texts : List Text)
    → Holds queue_bits u.input_queue q
    → Holds queue_bits (ingest_all u texts).input_queue (accept q texts)
      × ((ingest_all u texts).running ≡ u.running)
ingest_all-Holds u q [] h = (h, refl)
ingest_all-Holds u q (text ∷ texts) h =
    let (held, runs) = ingest_all-Holds (ingest u text) _ texts (ingest-Holds u q text h) in
    (held, runs ∙ ingest-running u text)

next_document-eq :
    (u : ProcessingUnit) (text : Text) (q : List Text)
    → Holds queue_bits u.input_queue (text ∷ q)
    → u.running ≡ true
    → next_document u ≡ (some text, record u { input_queue = (pop queue_bits u.input_queue).1 })
unfolding next_document dequeue
next_document-eq u text q h runs =
    let (popped, left) = pop_refines queue_bits (omega arith) u.input_queue (text ∷ q) h in
    let rest = record u { input_queue = (pop queue_bits u.input_queue).1 } in
    ap (λ (b : Bool). if b then ((pop queue_bits u.input_queue).0, rest) else (none, u)) runs
    ∙ ap (λ (o : Option Text). (o, rest)) popped

popped-Holds :
    (r : Ring Text) (text : Text) (q : List Text)
    → Holds queue_bits r (text ∷ q)
    → Holds queue_bits (pop queue_bits r).1 q
unfolding dequeue
popped-Holds r text q h = (pop_refines queue_bits (omega arith) r (text ∷ q) h).1

documents-Holds :
    (u : ProcessingUnit) (q : List Text)
    → Holds queue_bits u.input_queue q
    → u.running ≡ true
    → documents (length q) u ≡ q
documents-Holds u [] h runs = refl
documents-Holds u (text ∷ q) h runs =
    ap
      (λ (r : Option Text × ProcessingUnit). elim (r.0) [
        | none ↦ documents (length q) (r.1)
        | some t ↦ t ∷ documents (length q) (r.1)
      ])
      (next_document-eq u text q h runs)
    ∙ ap (λ (l : List Text). text ∷ l)
        (documents-Holds (record u { input_queue = (pop queue_bits u.input_queue).1 }) q
          (popped-Holds u.input_queue text q h) runs)

-- Where the unit runs and its queue holds some texts, the analysis thread takes from it, after any
-- texts are ingested, exactly these texts and the ingested ones in order, less the empty ones and
-- those for which the queue's 63 places were full.
pub documents-ingest_all :
    (u : ProcessingUnit) (q texts : List Text)
    → Holds queue_bits u.input_queue q
    → u.running ≡ true
    → documents (length (accept q texts)) (ingest_all u texts) ≡ accept q texts
documents-ingest_all u q texts h runs =
    let (held, still) = ingest_all-Holds u q texts h in
    documents-Holds (ingest_all u texts) (accept q texts) held (still ∙ runs)
