-- ===== src/Texts/KeyFiles.antt =====
-- A node's key file: `NodeIdentity::save` and `load` of crates/core/src/identity.rs. An identity is its
-- seed of 32 bytes.
use hextet.Base.{
  ℕ, ◌≡◌, refl, ap, ◌∙◌, Bool, true, false, List, [], ◌∷◌, ◌++◌, take, length, ==_iff, =?_eq, ◌=?◌,
  if◌then◌else◌, Option, none, some, Bool-cases, inl, inr, list_equality, ℕ_equality,
}
use hextet.Base.Assoc.{lookup, insert, lookup-insert, insert_self}
use hextet.Base.Bytes.{Bytes}
use hextet.Base.Outcome.{Outcome, ok, err, ◌>>=◌, or_err}
use hextet.Texts.{Codecs, IdentityError, io, invalid_encoding, sized}

-- What the operating system answers: whether a new file can be made at a path or a file there be
-- read, and after how many bytes writing it fails, if it does.
pub record Medium : Type 0 where
  pub creatable : Bytes → Bool
  pub readable : Bytes → Bool
  pub fails_after : Bytes → Option ℕ

abbrev pub Files : Type 0
Files = List (Bytes × Bytes)

-- `write_all` or `writeln`, which may stop half way.
abbrev pub filled : Files → Bytes → Bytes → Option ℕ → Files × Outcome IdentityError (Unit {0})
filled files path text none = (insert path text files, ok tt)
filled files path text (some n) = (insert path (take n text) files, err io)

-- `create_new(true)`, by what is at the path.
abbrev pub created :
    Medium → Files → Bytes → Bytes → Option Bytes → Files × Outcome IdentityError (Unit {0})
created m files path text (some old) = (files, err io)
created m files path text none =
    if m.creatable path then filled files path text (m.fails_after path) else (files, err io)

unfoldable pub write_new : Medium → Files → Bytes → Bytes → Files × Outcome IdentityError (Unit {0})
write_new m files path text = created m files path text (lookup path files)

unfoldable pub save :
    Codecs → Medium → Files → Bytes → Bytes → Files × Outcome IdentityError (Unit {0})
save c m files path seed = write_new m files path (c.base64.encode seed ++ b'\n' ∷ [])

abbrev pub read_file : Medium → Files → Bytes → Option Bytes
read_file m files path = if m.readable path then lookup path files else none

unfoldable pub load : Codecs → Medium → Files → Bytes → Outcome IdentityError Bytes
load c m files path = do
  text ← or_err (read_file m files path) io
  bytes ← or_err (c.base64.decode (c.std.trim text)) invalid_encoding
  sized 32 invalid_encoding bytes

module _ (m : Medium) (files : Files) (path text : Bytes) where
  inserted-keeps :
      (p old v : Bytes)
      → lookup p files ≡ some old
      → lookup path files ≡ none
      → lookup p (insert path v files) ≡ some old
  inserted-keeps p old v h e = elim (Bool-cases (path =? p)) [
    | inl same ↦ absurd (cc (h, e, ap (λ k. lookup k files) (=?_eq {A = Bytes} path p same)))
    | inr other ↦ lookup-insert path p v files ∙ rw other h
  ]

  filled-keeps :
      (p old : Bytes) (o : Option ℕ)
      → lookup p files ≡ some old
      → lookup path files ≡ none
      → lookup p (filled files path text o).0 ≡ some old
  filled-keeps p old none h e = inserted-keeps p old text h e
  filled-keeps p old (some n) h e = inserted-keeps p old (take n text) h e

  created-keeps :
      (p old : Bytes) (o : Option Bytes)
      → lookup p files ≡ some old
      → lookup path files ≡ o
      → lookup p (created m files path text o).0 ≡ some old
  created-keeps p old (some there) h e = h
  created-keeps p old none h e = elim (Bool-cases (m.creatable path)) [
    | inl can ↦ rw can (filled-keeps p old (m.fails_after path) h e)
    | inr cannot ↦ rw cannot h
  ]

  filled-done :
      (o : Option ℕ)
      → (filled files path text o).1 ≡ ok tt
      → lookup path (filled files path text o).0 ≡ some text
  filled-done none h = insert_self path text files
  filled-done (some n) h = absurd (cc h)

  created-done :
      (o : Option Bytes)
      → (created m files path text o).1 ≡ ok tt
      → lookup path (created m files path text o).0 ≡ some text
  created-done (some there) h = absurd (cc h)
  created-done none h = by_test (m.creatable path) h
    where
      by_test :
          (b : Bool)
          → (if b then filled files path text (m.fails_after path) else (files, err io)).1 ≡ ok tt
          → lookup path
              (if b then filled files path text (m.fails_after path) else (files, err io)).0
            ≡ some text
      by_test true h = filled-done (m.fails_after path) h
      by_test false h = absurd (cc h)

-- Saving leaves every file that exists as it is, also one at its own path and also where it fails.
save-keeps :
    (c : Codecs) (m : Medium) (files : Files) (path seed p old : Bytes)
    → lookup p files ≡ some old
    → lookup p (save c m files path seed).0 ≡ some old
unfolding save write_new
save-keeps c m files path seed p old h =
    created-keeps m files path (c.base64.encode seed ++ b'\n' ∷ []) p old (lookup path files) h refl

-- An identity that was saved is loaded again, where the file can be read.
pub load-save :
    (c : Codecs) (m : Medium) (files : Files) (path seed : Bytes)
    → length seed ≡ 32
    → m.readable path ≡ true
    → (save c m files path seed).1 ≡ ok tt
    → load c m (save c m files path seed).0 path ≡ ok seed
unfolding save write_new load
load-save c m files path seed size readable saved =
    let text = c.base64.encode seed ++ b'\n' ∷ [] in
    let found : lookup path (created m files path text (lookup path files)).0 ≡ some text =
      created-done m files path text (lookup path files) saved in
    rw
      (
        readable,
        found,
        c.trimmed_line seed,
        c.base64.decode-encode seed,
        (==_iff (length seed) 32).1 size,
      )
      refl
