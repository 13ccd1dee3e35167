-- ===== src/Gc/Settled.antt =====
-- The words that are settled while the blocks move.
use mquickjs.Base.{
  ℕ, ◌≡◌, refl, ◌∙◌, inl, inr, Bool, true, false, List, [], ◌∷◌, arith, Bool-cases, ◌==◌,
}
use mquickjs.Props.{Words}
use mquickjs.Gc.Thread.{Ram}
use mquickjs.Gc.Chain.{among, Rep, Chain-frame, among-rest}
use mquickjs.Gc.Graph.{relocated}
use mquickjs.Gc.Staged.{Staged}
use mquickjs.Gc.Tiles.{among-cons}

-- A smaller live region.
pub narrow-Staged :
    {ram : Ram} {h : Words} {place : ℕ → ℕ} {heads : List ℕ} {live staged : ℕ → Bool}
    {ptr heap_free n : ℕ} {threads : ℕ → List ℕ} {m l : Words} (live' : ℕ → Bool)
    → ((x : ℕ) → live' x ≡ true → live x ≡ true)
    → Staged ram h place heads live staged ptr heap_free n threads m l
    → Staged ram h place heads live' staged ptr heap_free n threads m l
narrow-Staged live' inside s = record {
  rep = record {
    chain = s.rep.chain;
    nodup = s.rep.nodup;
    points = s.rep.points;
    header = s.rep.header;
    plain = λ x hx lx out. s.rep.plain x hx (inside x lx) out;
  };
  slot = s.slot;
  target = s.target;
  after = s.after;
  settled = s.settled;
  fresh = s.fresh;
  apart = s.apart;
  count = s.count;
}

-- The chains of the blocks that are left lie in the live region, and so does a memory that agrees there.
pub shrink-Staged :
    {ram : Ram} {h : Words} {place : ℕ → ℕ} {b : ℕ} {rest : List ℕ} {live staged : ℕ → Bool}
    {ptr heap_free n : ℕ} {threads : ℕ → List ℕ} {m l : Words} (live' : ℕ → Bool) (m' : Words)
    → Staged ram h place (b ∷ rest) live staged ptr heap_free n threads m l
    → threads b ≡ []
    → ((y : ℕ) → live' y ≡ true → (live y ≡ true) × ((y == b) ≡ false) × (m' y ≡ m y))
    → ((c : ℕ) → among c rest ≡ true → live' c ≡ true)
    → ((c x : ℕ) → among c rest ≡ true → among x (threads c) ≡ true → live' x ≡ true)
    → Staged ram h place rest live' staged ptr heap_free n threads m' l
unfolding among
shrink-Staged {b = b} {rest} {threads = threads} {m} {l} live' m' s empty frame heads cells =
    let on : (c : ℕ) → among c rest ≡ true → among c (b ∷ rest) ≡ true =
      λ c hc. among-rest c b rest hc in
    let rep' : Rep live' (λ c. among c rest) threads m' l = record {
      chain = λ c hc.
          Chain-frame m m' c c (threads c) (l c) (frame c (heads c hc)).2
            (λ x i. (frame x (cells c x hc i)).2) (s.rep.chain c (on c hc));
      nodup = λ c hc. s.rep.nodup c (on c hc);
      points = λ c x hc i. let (at, below) = s.rep.points c x (on c hc) i in (at, ground arith);
      header = λ c hc. s.rep.header c (on c hc);
      plain = λ x hx lx out.
          let (was_live, apart, same) = frame x lx in
          same
          ∙ s.rep.plain x (ground arith) was_live (λ c hc. elim (among-cons c b rest hc) [
            | inl first ↦ rw first (rw empty refl)
            | inr j ↦ out c j
          ]);
    } in
    record {
      rep = rep';
      slot = λ c x hc i. s.slot c x (on c hc) i;
      target = λ c x hc i. s.target c x (on c hc) i;
      after = λ c x hc i lt. s.after c x (on c hc) i lt;
      settled = λ x st. elim (s.settled x st) [
        | inl (c, hc, i) ↦ elim (among-cons c b rest hc) [
          | inl first ↦
              let none : among x (threads c) ≡ false = rw first (rw empty refl) in
              absurd (cc (i, none))
          | inr j ↦ inl (c, j, i)
        ]
        | inr done ↦ inr done
      ];
      fresh = s.fresh;
      apart = λ x st. let before = s.apart x st in ground arith;
      count = λ c hc. s.count c (on c hc);
    }

-- Outside the chains the memory holds the relocated words.
pub settled-word :
    {ram : Ram} {h : Words} {place : ℕ → ℕ} {heads : List ℕ} {live staged : ℕ → Bool}
    {ptr heap_free n : ℕ} {threads : ℕ → List ℕ} {m l : Words} (slots : List ℕ)
    → Staged ram h place heads live staged ptr heap_free n threads m l
    → ((x : ℕ) → staged x ≡ among x slots)
    → (x : ℕ) → among x heads ≡ false
    → live x ≡ true
    → ((c : ℕ) → among c heads ≡ true → among x (threads c) ≡ false)
    → m x ≡ relocated ram place slots h x
unfolding relocated
settled-word {ram} {h} {place} {threads = threads} slots s is x hx lx out =
    s.rep.plain x hx lx out ∙ elim (Bool-cases (among x slots)) [
      | inl i ↦ elim (s.settled x (is x ∙ i)) [
        | inl (c, hc, j) ↦ absurd (cc (j, out c hc))
        | inr done ↦ rw i done
      ]
      | inr o ↦ rw o (s.fresh x (is x ∙ o))
    ]
