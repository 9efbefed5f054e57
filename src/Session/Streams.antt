-- ===== src/Session/Streams.antt =====
-- The streams of internal/provider/types.go and what follows them.
use agen_sense.Prelude.{
  String, Option, none, some, List, [], ◌∷◌, ◌++◌, map, ◌≡◌, refl, sym, ap, ◌∙◌,
}
use agen_sense.Provider.Clients.{Callback, next, deliver}

pub next-ext :
    {S : Type 0} (m : Option String × S) (f g : S → Option String × S)
    → ((s : S) → f s ≡ g s)
    → next m f ≡ next m g
next-ext (some e, s) f g same = refl
next-ext (none, s) f g same = same s

pub next_assoc :
    {S : Type 0} (m : Option String × S) (f g : S → Option String × S)
    → next (next m f) g ≡ next m (λ s. next (f s) g)
next_assoc (some e, s) f g = refl
next_assoc (none, s) f g = refl

pub deliver-append :
    {A S : Type 0} (xs ys : List A) (ending : Option String) (cb : Callback A S) (s : S)
    → deliver (xs ++ ys) ending cb s ≡ next (deliver xs none cb s) (deliver ys ending cb)
deliver-append [] ys ending cb s = refl
deliver-append (x ∷ xs) ys ending cb s =
    next-ext (cb x s) _ _ (λ t. deliver-append xs ys ending cb t)
    ∙ sym (next_assoc (cb x s) (deliver xs none cb) (deliver ys ending cb))

pub deliver-failing :
    {A S : Type 0} (xs : List A) (error : String) (cb : Callback A S) (s : S)
    (f : S → Option String × S)
    → next (deliver xs (some error) cb s) f ≡ deliver xs (some error) cb s
deliver-failing [] error cb s f = refl
deliver-failing (x ∷ xs) error cb s f =
    next_assoc (cb x s) (deliver xs (some error) cb) f
    ∙ next-ext (cb x s) _ _ (λ t. deliver-failing xs error cb t f)

-- What every call keeps.
pub next-Kept :
    {S : Type 0} (P : S → Type 0) (m : Option String × S) (f : S → Option String × S)
    → P m.1
    → ((s : S) → P s → P (f s).1)
    → P (next m f).1
next-Kept P (some e, s) f p keeps = p
next-Kept P (none, s) f p keeps = keeps s p

pub deliver-Kept :
    {A S : Type 0} (P : S → Type 0) (cb : Callback A S)
    → ((a : A) (s : S) → P s → P (cb a s).1)
    → (xs : List A) (ending : Option String) (s : S) → P s
    → P (deliver xs ending cb s).1
deliver-Kept P cb keeps [] ending s p = p
deliver-Kept P cb keeps (x ∷ xs) ending s p =
    next-Kept P (cb x s) (deliver xs ending cb) (keeps x s p)
      (λ t q. deliver-Kept P cb keeps xs ending t q)

-- `return nil`
pub next_end : {S : Type 0} (m : Option String × S) → next m (λ s. (none, s)) ≡ m
next_end (some e, s) = refl
next_end (none, s) = refl

-- The state of a part seen through a function.
abbrev pub viewed : {S T : Type 0} → (S → T) → Option String × S → Option String × T
viewed h m = (m.0, h m.1)

pub viewed-next :
    {S T : Type 0} (h : S → T) (P : S → Type 0) (m : Option String × S) (f : S → Option String × S)
    (g : T → Option String × T)
    → P m.1
    → ((s : S) → P s → viewed h (f s) ≡ g (h s))
    → viewed h (next m f) ≡ next (viewed h m) g
viewed-next h P (some e, s) f g p follows = refl
viewed-next h P (none, s) f g p follows = follows s p

-- A callback that another follows.
pub deliver-map :
    {A B S T : Type 0} (f : A → B) (h : S → T) (cb : Callback A S) (cb' : Callback B T)
    → ((a : A) (s : S) → viewed h (cb a s) ≡ cb' (f a) (h s))
    → (xs : List A) (ending : Option String) (s : S)
    → viewed h (deliver xs ending cb s) ≡ deliver (map f xs) ending cb' (h s)
deliver-map f h cb cb' follows [] ending s = refl
deliver-map f h cb cb' follows (x ∷ xs) ending s =
    viewed-next h (λ t. Unit) (cb x s) (deliver xs ending cb) (deliver (map f xs) ending cb') tt
      (λ t p. deliver-map f h cb cb' follows xs ending t)
    ∙ ap (λ m. next m (deliver (map f xs) ending cb')) (follows x s)
