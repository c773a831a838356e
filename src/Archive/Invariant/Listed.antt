-- ===== src/Archive/Invariant/Listed.antt =====
-- What changes of the listings do to the listing of a file.
use baf.Base.{
  ℕ, ◌≡◌, refl, sym, ap, ◌∙◌, inl, inr, true, false, List, none, some, some_inj, arith, Bool-cases,
}
use baf.Base.Maps.{
  Key, Map, lookup, insert, remove, member, include, exclude, nat_key, bytes_key, lookup-insert,
  lookup-remove, member-include, member-exclude,
}
use baf.Data.Directory.{DirectoryIdOrRoot, non_root}
use baf.Data.File.{File}
use baf.Health.{DirContent, dir_key}
use baf.Archive.Invariant.{IsListed, NotListed}

module _ {K V : Type 0} ⦃k : Key K⦄ where
  -- Where a key is that was inserted.
  pub lookup-insert_same : (a : K) (v : V) (m : Map K V) → lookup a (insert a v m) ≡ some v
  lookup-insert_same a v m = lookup-insert a a v m ∙ rw ((k.same_iff a a).1 refl) refl

  pub lookup-insert_other :
      (a b : K) (v : V) (m : Map K V) → (b ≡ a → ⊥) → lookup b (insert a v m) ≡ lookup b m
  lookup-insert_other a b v m differ = elim (Bool-cases (k.same b a)) [
    | inl same ↦ absurd (differ ((k.same_iff b a).0 same))
    | inr other ↦ lookup-insert a b v m ∙ rw other refl
  ]

  -- A key that is found after an insertion is the one inserted, or was found before.
  pub lookup-insert_cases :
      {P : Type 0} (a b : K) (v w : V) (m : Map K V)
      → lookup b (insert a v m) ≡ some w
      → (b ≡ a → v ≡ w → P)
      → ((b ≡ a → ⊥) → lookup b m ≡ some w → P)
      → P
  lookup-insert_cases a b v w m at same other = elim (Bool-cases (k.same b a)) [
    | inl e ↦
        let is : b ≡ a = (k.same_iff b a).0 e in
        same is (
          some_inj
            (sym (lookup-insert_same a v m) ∙ (ap (λ x. lookup x (insert a v m)) (sym is) ∙ at)))
    | inr e ↦
        let is : b ≡ a → ⊥ = λ x. ground (arith, (k.same_iff b a).1 x, e) in
        other is (sym (lookup-insert_other a b v m is) ∙ at)
  ]

module _ (f : File) (listings : Map DirectoryIdOrRoot DirContent) (p : DirectoryIdOrRoot) where
  -- A listing that keeps the file.
  pub IsListed-insert :
      (old new : DirContent)
      → lookup p listings ≡ some old
      → (f.parent_dir ≡ p → member f.id old.files ≡ true → member f.id new.files ≡ true)
      → (f.parent_dir ≡ p → member f.name old.names ≡ true → member f.name new.names ≡ true)
      → IsListed f listings
      → IsListed f (insert p new listings)
  IsListed-insert old new at ids names h = elim (Bool-cases (dir_key.same f.parent_dir p)) [
    | inl e ↦
        let is : f.parent_dir ≡ p = (dir_key.same_iff f.parent_dir p).0 e in
        let same : h.content ≡ old =
          some_inj (sym h.listed ∙ (ap (λ x. lookup x listings) is ∙ at)) in
        record {
          content = new;
          listed =
              ap (λ x. lookup x (insert p new listings)) is ∙ lookup-insert_same p new listings;
          has_id = ids is (ap (λ (c : DirContent). member f.id c.files) (sym same) ∙ h.has_id);
          has_name =
              names is (ap (λ (c : DirContent). member f.name c.names) (sym same) ∙ h.has_name);
        }
    | inr e ↦
        let is : f.parent_dir ≡ p → ⊥ =
          λ x. ground (arith, (dir_key.same_iff f.parent_dir p).1 x, e) in
        record {
          content = h.content;
          listed = lookup-insert_other p f.parent_dir new listings is ∙ h.listed;
          has_id = h.has_id;
          has_name = h.has_name;
        }
  ]

  -- A listing of a directory that had none.
  pub IsListed-insert_new :
      (new : DirContent)
      → lookup p listings ≡ none
      → IsListed f listings
      → IsListed f (insert p new listings)
  IsListed-insert_new new none_at h =
      let is : f.parent_dir ≡ p → ⊥ =
        λ x. ground (arith, sym h.listed ∙ (ap (λ y. lookup y listings) x ∙ none_at)) in
      record {
        content = h.content;
        listed = lookup-insert_other p f.parent_dir new listings is ∙ h.listed;
        has_id = h.has_id;
        has_name = h.has_name;
      }

-- A listing without the id, of a directory that is not of that id.
pub NotListed-insert :
    (id : ℕ) (p : DirectoryIdOrRoot) (new : DirContent)
    (listings : Map DirectoryIdOrRoot DirContent)
    → (non_root id ≡ p → ⊥)
    → member id new.dirs ≡ false
    → member id new.files ≡ false
    → NotListed id listings
    → NotListed id (insert p new listings)
NotListed-insert id p new listings differ no_dir no_file h = record {
  content = lookup-insert_other p (non_root id) new listings differ ∙ h.content;
  listed = λ q content at.
      lookup-insert_cases p q new content listings at
        (λ is same. (
          ap (λ (c : DirContent). member id c.dirs) (sym same) ∙ no_dir,
          ap (λ (c : DirContent). member id c.files) (sym same) ∙ no_file,
        ))
        (λ is before. h.listed q content before);
}

-- A directory that is listed is not of an id that is nowhere listed.
pub NotListed-parent :
    (id : ℕ) (p : DirectoryIdOrRoot) (content : DirContent)
    (listings : Map DirectoryIdOrRoot DirContent)
    → NotListed id listings
    → lookup p listings ≡ some content
    → non_root id ≡ p
    → ⊥
NotListed-parent id p content listings h at same =
    ground (arith, sym at ∙ (ap (λ q. lookup q listings) (sym same) ∙ h.content))

-- An id that is not listed is not one of those listed with another more.
pub member-include_other :
    (a b : ℕ) (s : List ℕ) → (b ≡ a → ⊥) → member b s ≡ false → member b (include a s) ≡ false
member-include_other a b s differ none_in = member-include a b s ∙ ground (arith, none_in, differ)

module _ {K : Type 0} ⦃k : Key K⦄ where
  pub member-include_more :
      (a b : K) (s : List K) → member a s ≡ true → member a (include b s) ≡ true
  member-include_more a b s has = member-include b a s ∙ ground (arith, has)

  pub member-include_same : (a : K) (s : List K) → member a (include a s) ≡ true
  member-include_same a s = member-include a a s ∙ rw ((k.same_iff a a).1 refl) refl

  pub member-exclude_other :
      (a b : K) (s : List K) → (b ≡ a → ⊥) → member b s ≡ true → member b (exclude a s) ≡ true
  member-exclude_other a b s differ has =
      member-exclude a b s ∙ ground (arith, has, differ, k.same_iff b a)

  pub member-exclude_none :
      (a b : K) (s : List K) → member b s ≡ false → member b (exclude a s) ≡ false
  member-exclude_none a b s none_in = member-exclude a b s ∙ ground (arith, none_in)

module _ {K V : Type 0} ⦃k : Key K⦄ where
  -- What is found after a removal was found before, under another key.
  pub lookup-remove-some :
      (a b : K) (w : V) (m : Map K V)
      → lookup b (remove a m) ≡ some w
      → (b ≡ a → ⊥) × (lookup b m ≡ some w)
  lookup-remove-some a b w m at = elim (Bool-cases (k.same b a)) [
    | inl e ↦ absurd (ground (arith, rw e at (sym (lookup-remove a b m) ∙ at)))
    | inr e ↦
        (λ x. ground (arith, (k.same_iff b a).1 x, e), rw e at (sym (lookup-remove a b m) ∙ at))
  ]

  pub lookup-remove-none :
      (a b : K) (m : Map K V) → lookup b m ≡ none → lookup b (remove a m) ≡ none
  lookup-remove-none a b m at = lookup-remove a b m ∙ ground (arith, at)

  pub lookup-remove_same : (a : K) (m : Map K V) → lookup a (remove a m) ≡ none
  lookup-remove_same a m = lookup-remove a a m ∙ rw ((k.same_iff a a).1 refl) refl

  pub lookup-remove_other :
      (a b : K) (m : Map K V) → (b ≡ a → ⊥) → lookup b (remove a m) ≡ lookup b m
  lookup-remove_other a b m differ = elim (Bool-cases (k.same b a)) [
    | inl same ↦ absurd (differ ((k.same_iff b a).0 same))
    | inr other ↦ lookup-remove a b m ∙ rw other refl
  ]
