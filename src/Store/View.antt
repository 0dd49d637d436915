-- ===== src/Store/View.antt =====
-- What a library's playlists show of themselves.
use mathlib.Core.List.{Permᴰ}
use mlib.Prelude.{
  ℕ, zero, suc, ◌+◌, ◌<◌, ◌≡◌, ◌⊎◌, refl, ap, ◌∙◌, inl, inr, true, false, Bool-cases, none, some,
  List, [], ◌∷◌, ◌++◌, All, length, get_elem?, if◌then◌else◌, arith,
}
use mlib.Memory.{ok, failed, Library}
use mlib.Text.{Text, strcmp, strncmp, is_eq}
use mlib.Text.Order.{strcmp-eq, strcmp_self}
use mlib.Bucket.{Entry}
use mlib.Bucket.Add.{Absent}
use mlib.Playlist.{plist_name_len}
use mlib.Playlist.Holds.{Playlist, Run}
use mlib.Playlist.Find.{is_named, locate}
use mlib.Playlist.Split.{removed}
use mlib.Store.Bag.{count, of_list, has, with_path}
use mlib.Store.{Listing, Store, called, exists, delete, put}

abbrev pub texts : List Entry → List Text
texts [] = []
texts (e ∷ es) = e.text ∷ texts es

abbrev pub listing : Playlist → Listing
listing pl = record { name = pl.name; paths = of_list (texts pl.entries) }

unfoldable pub view : List Playlist → Store
view [] = []
view (pl ∷ pls) = listing pl ∷ view pls

pub view-append : (xs ys : List Playlist) → view (xs ++ ys) ≡ view xs ++ view ys
unfolding view
view-append [] ys = refl
view-append (x ∷ xs) ys = ap (λ r. listing x ∷ r) (view-append xs ys)

-- A name that fits its field is told from every other.
strncmp-strcmp : (s t : Text) (n : ℕ) → length s < n → strncmp s t n ≡ strcmp s t
unfolding strncmp strcmp
strncmp-strcmp s t zero h = absurd (omega arith)
strncmp-strcmp [] [] (suc n) h = refl
strncmp-strcmp [] (d ∷ t) (suc n) h = refl
strncmp-strcmp (c ∷ s) [] (suc n) h = refl
strncmp-strcmp (c ∷ s) (d ∷ t) (suc n) h = ground (arith, strncmp-strcmp s t n)

abbrev pub Short : Playlist → Type 0
Short pl = length pl.name < plist_name_len

pub Run-Short : (l : Library) (p e : ℕ) (pls : List Playlist) → Run l p pls e → All Short pls
Run-Short l p e [] h = tt
Run-Short l p e (pl ∷ pls) h = (h.0.short, Run-Short l (p + pl.plen) e pls h.1)

pub is_named-called :
    (name : Text) (pl : Playlist) → Short pl → is_named name pl ≡ called name (listing pl)
is_named-called name pl h = rw (strncmp-strcmp pl.name name plist_name_len h) refl

-- Whether a name is found.
pub exists-locate :
    (name : Text) (pls : List Playlist) (p : ℕ)
    → All Short pls
    → ((exists name (view pls) ≡ false) × (locate name pls p ≡ none))
      ⊎ ((exists name (view pls) ≡ true) × ((q : ℕ) × (locate name pls p ≡ some q)))
unfolding exists view locate
exists-locate name [] p h = inl (refl, refl)
exists-locate name (pl ∷ pls) p h =
    let same = is_named-called name pl h.0 in
    elim (Bool-cases (is_named name pl)) [
      | inl hit ↦ inr (ground arith, (p, ground arith))
      | inr miss ↦ elim (exists-locate name pls (p + pl.plen) h.1) [
        | inl (e, f) ↦ inl (ground arith, ground arith)
        | inr (e, (q, f)) ↦ inr (ground arith, (q, ground arith))
      ]
    ]

pub delete-view :
    (name : Text) (pls : List Playlist)
    → All Short pls
    → delete name (view pls)
      ≡ (if exists name (view pls) then ok else failed, view (removed name pls))
unfolding exists view delete removed
delete-view name [] h = refl
delete-view name (pl ∷ pls) h =
    let same = is_named-called name pl h.0 in
    elim (Bool-cases (is_named name pl)) [
      | inl hit ↦ ground arith
      | inr miss ↦ ground (arith, delete-view name pls h.1)
    ]

-- Whether a path is there.
count-Absent : (str : Text) (es : List Entry) → Absent str es → count str (texts es) ≡ 0
count-Absent str [] h = refl
count-Absent str (e ∷ es) h = ground (arith, count-Absent str es h.1, strcmp-eq e.text str)

pub has-cases :
    (str : Text) (es : List Entry)
    → ((has str (of_list (texts es)) ≡ false) × Absent str es)
      ⊎ ((has str (of_list (texts es)) ≡ true)
          × ((i : ℕ) × (e : Entry) × (get_elem? es i ≡ some e) × (e.text ≡ str)))
unfolding has
has-cases str [] = inl (refl, tt)
has-cases str (e ∷ es) = elim (Bool-cases (is_eq (strcmp e.text str))) [
  | inl hit ↦ inr (ground arith, (0, e, refl, strcmp-eq e.text str (ground arith)))
  | inr miss ↦ elim (has-cases str es) [
    | inl (h, a) ↦ inl (
      ground arith,
      ((λ q. cc (miss, ap (λ t. is_eq (strcmp e.text t)) q, ap is_eq (strcmp_self e.text))), a),
    )
    | inr (h, (i, x, at, same)) ↦ inr (ground arith, (suc i, x, at, same))
  ]
]

-- Entries in another order show the same paths.
pub Permᴰ-SameTexts :
    (a : Text) {xs ys : List Entry} → Permᴰ xs ys → count a (texts xs) ≡ count a (texts ys)
Permᴰ-SameTexts a Permᴰ.nil = refl
Permᴰ-SameTexts a (Permᴰ.cons e h) =
    ground (arith, ap (λ (x : Entry). x.text) e, Permᴰ-SameTexts a h)
Permᴰ-SameTexts a (Permᴰ.swap e f) =
    ground (arith, ap (λ (x : Entry). x.text) e, ap (λ (x : Entry). x.text) f)
Permᴰ-SameTexts a (Permᴰ.trans h k) = Permᴰ-SameTexts a h ∙ Permᴰ-SameTexts a k

pub Permᴰ-length : {xs ys : List Entry} → Permᴰ xs ys → length xs ≡ length ys
Permᴰ-length Permᴰ.nil = refl
Permᴰ-length (Permᴰ.cons e h) = ap suc (Permᴰ-length h)
Permᴰ-length (Permᴰ.swap e f) = refl
Permᴰ-length (Permᴰ.trans h k) = Permᴰ-length h ∙ Permᴰ-length k

-- What putting a path does to the view.
pub put_absent :
    (name path : Text) (s : Store) → exists name s ≡ false → put name path s ≡ (failed, s)
unfolding exists put
put_absent name path [] h = refl
put_absent name path (x ∷ s) h = ground (arith, put_absent name path s)

module _ (name path : Text) (here : Playlist) (after : List Playlist) (short : Short here)
    (hit : is_named name here ≡ true) where
  pub put_old :
      (before : List Playlist)
      → All Short before
      → All (λ pl. is_named name pl ≡ false) before
      → has path (listing here).paths ≡ true
      → put name path (view (before ++ here ∷ after)) ≡ (failed, view (before ++ here ∷ after))
  unfolding put view
  put_old [] s m h = ground (arith, is_named-called name here short)
  put_old (pl ∷ before) s m h =
      ground (arith, is_named-called name pl s.0, put_old before s.1 m.1 h)

  pub put_new :
      (before : List Playlist)
      → All Short before
      → All (λ pl. is_named name pl ≡ false) before
      → has path (listing here).paths ≡ false
      → put name path (view (before ++ here ∷ after)) ≡ (
        ok,
        view before
            ++ record (listing here) { paths = with_path path (listing here).paths } ∷ view after,
      )
  unfolding put view
  put_new [] s m h = ground (arith, is_named-called name here short)
  put_new (pl ∷ before) s m h =
      ground (arith, is_named-called name pl s.0, put_new before s.1 m.1 h)

pub All-removed {κ} :
    (P : Playlist → Type κ) (name : Text) (pls : List Playlist)
    → All P pls
    → All P (removed name pls)
unfolding removed
All-removed P name [] h = tt
All-removed P name (pl ∷ pls) h = elim (Bool-cases (is_named name pl)) [
  | inl hit ↦ rw hit h.1
  | inr miss ↦ rw miss (h.0, All-removed P name pls h.1)
]

pub All-append {κ} :
    (P : Playlist → Type κ) (xs ys : List Playlist) → All P xs → All P ys → All P (xs ++ ys)
All-append P [] ys h k = k
All-append P (x ∷ xs) ys h k = (h.0, All-append P xs ys h.1 k)

pub All-split {κ} :
    (P : Playlist → Type κ) (xs : List Playlist) (y : Playlist) (ys : List Playlist)
    → All P (xs ++ y ∷ ys)
    → All P xs × P y × All P ys
All-split P [] y ys h = (tt, h.0, h.1)
All-split P (x ∷ xs) y ys h = let r = All-split P xs y ys h.1 in ((h.0, r.0), r.1, r.2)

pub removed_absent :
    (name : Text) (pls : List Playlist) (p : ℕ) → locate name pls p ≡ none → removed name pls ≡ pls
unfolding locate removed
removed_absent name [] p h = refl
removed_absent name (pl ∷ pls) p h = ground (arith, removed_absent name pls (p + pl.plen))
