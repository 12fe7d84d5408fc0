-- ===== src/Observer/Emits.antt =====
-- What an action returns and sends, whatever has been sent before, and rules for it.
use pipeline_c.Prelude.{
  ◌≡◌, refl, ap, ◌∙◌, sym, none, some, List, [], ◌∷◌, ◌++◌, append-nil, append_assoc,
}
use pipeline_c.Observer.{Event, Sink, send, Run, pure, notify, ◌>>=◌}

-- A sink that is sent some events.
abbrev pub deliver : List Event → Sink → Sink
deliver events none = none
deliver events (some sent) = some (sent ++ events)

pub deliver-nil : (s : Sink) → deliver [] s ≡ s
deliver-nil none = refl
deliver-nil (some sent) = ap some (append-nil sent)

pub deliver-append :
    (es fs : List Event) (s : Sink) → deliver fs (deliver es s) ≡ deliver (es ++ fs) s
deliver-append es fs none = refl
deliver-append es fs (some sent) = ap some (append_assoc sent es fs)

pub send-eq-deliver : (e : Event) (s : Sink) → send e s ≡ deliver (e ∷ []) s
unfolding send
send-eq-deliver e none = refl
send-eq-deliver e (some sent) = refl

-- `m` returns one value and sends one list of events, which are as `P` says, and without an observer
-- it returns the same value.
pub record Emits {A : Type 0} (P : A → List Event → Type 0) (m : Run A) : Type 0 where
  pub value : A
  pub events : List Event
  pub runs : (s : Sink) → m s ≡ (value, deliver events s)
  pub holds : P value events

module _ {A : Type 0} {P : A → List Event → Type 0} where
  pub Emits-pure : (a : A) → P a [] → Emits P (pure a)
  unfolding pure
  Emits-pure a h = record {
    value = a;
    events = [];
    runs = λ s. ap (λ t. (a, t)) (sym (deliver-nil s));
    holds = h;
  }

pub Emits-notify :
    {P : Unit {0} → List Event → Type 0} (e : Event) → P tt (e ∷ []) → Emits P (notify e)
unfolding notify
Emits-notify e h = record {
  value = tt;
  events = e ∷ [];
  runs = λ s. ap (λ t. (tt, t)) (send-eq-deliver e s);
  holds = h;
}

-- The events of a bind are those of its parts, one after the other.
pub Emits-bind :
    {A B : Type 0} {P : A → List Event → Type 0} {Q : B → List Event → Type 0} {m : Run A}
    (f : A → Run B)
    → Emits P m
    → ((a : A) (es : List Event) → P a es → Emits (λ b fs. Q b (es ++ fs)) (f a))
    → Emits Q (m >>= f)
unfolding ◌>>=◌
Emits-bind f em ef =
    let ek = ef em.value em.events em.holds in
    record {
      value = ek.value;
      events = em.events ++ ek.events;
      runs = λ s.
          ap (λ r. f r.0 r.1) (em.runs s)
          ∙ ek.runs (deliver em.events s)
          ∙ ap (λ t. (ek.value, t)) (deliver-append em.events ek.events s);
      holds = ek.holds;
    }

pub Emits-weaken :
    {A : Type 0} {P Q : A → List Event → Type 0} {m : Run A}
    → ((a : A) (es : List Event) → P a es → Q a es)
    → Emits P m
    → Emits Q m
Emits-weaken f em = record {
  value = em.value;
  events = em.events;
  runs = em.runs;
  holds = f em.value em.events em.holds;
}

pub Emits-value :
    {A : Type 0} {P : A → List Event → Type 0} {m : Run A}
    → Emits P m
    → (s t : Sink) → (m s).0 ≡ (m t).0
Emits-value em s t = ap (λ r. r.0) (em.runs s) ∙ sym (ap (λ r. r.0) (em.runs t))
