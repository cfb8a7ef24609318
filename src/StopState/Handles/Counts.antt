-- ===== src/StopState/Handles/Counts.antt =====
-- stdlib/stop_token.hpp: what each step of a method of `stop_token` or `stop_source` does to the counts.
use synchronization_library.Prelude.{
  ℕ, ◌+◌, ◌-◌, ◌&&◌, ◌^◌, ◌≤◌, ◌<◌, ◌≡◌, refl, ap, ◌∙◌, arith, false, Option, none, some, ◌==◌,
  if◌then◌else◌, Bool-cases, inl, inr,
}
use synchronization_library.Threads.{total, total-update, total-le}
use synchronization_library.StopState.Word
use synchronization_library.StopState.Fields.{
  Fields, pack, increment_of_pack, decrement_token_of_pack,
}
use synchronization_library.StopState.Handles.Use.{
  Objects, set_token, set_source, add_token, drop_token, add_source,
}

-- Whether a pointer is one to state k.
abbrev pub points_to : ℕ → Option ℕ → ℕ
points_to k none = 0
points_to k (some a) = if a == k then 1 else 0

-- The fields of a state with so many tokens and sources, where no stop is requested.
abbrev pub counted : (tokens sources : ℕ) → Fields
counted tokens sources = record {
  requested = false;
  locked = false;
  tokens = tokens;
  sources = sources;
}

-- A pointer is null or one to a state that was made.
abbrev pub IsMade : ℕ → Option ℕ → Type 0
IsMade made p = (k : ℕ) → p ≡ some k → k < made

-- State k, where the objects 0 to n - 1 and the pointer `temp` refer to it.
pub record Right (n : ℕ) (o : Objects) (temp : Option ℕ) (k : ℕ) : Type 0 where
  pub alive : o.deleted k ≡ false
  pub sources : ℕ
  pub some_source : 0 < sources
  pub few_sources : sources ≤ o.additions + 1
  pub word : o.words k ≡ pack (counted (total (points_to k) n o.tokens + points_to k temp) sources)

-- The objects between the steps of a call, where the pointer `temp` counts as a token.
pub record Facts (n : ℕ) (o : Objects) (temp : Option ℕ) : Type 0 where
  pub tokens_made : (i : ℕ) → IsMade o.made (o.tokens i)
  pub sources_made : (i : ℕ) → IsMade o.made (o.sources i)
  pub temp_made : IsMade o.made temp
  pub right : (k : ℕ) → k < o.made → Right n o temp k

abbrev pub Inv : ℕ → Objects → Option ℕ → Type 0
Inv n o temp = o.additions + 2 < 2 ^ 31 → Facts n o temp

points_to-le : (k : ℕ) (p : Option ℕ) → points_to k p ≤ 1
points_to-le k none = omega arith
points_to-le k (some a) = ground arith

added_token :
    (w t t' sources : ℕ)
    → w ≡ pack (counted t sources)
    → t' ≡ t + 1
    → t + 1 < 2 ^ 31
    → sources + 1 < 2 ^ 31
    → Word.increment_token_ref w ≡ pack (counted t' sources)
added_token w t t' sources e next t_room s_room =
    rw (e, next) ((increment_of_pack (counted t sources) (t_room, s_room)).0)

dropped_token :
    (w t t' sources : ℕ)
    → w ≡ pack (counted t sources)
    → t ≡ t' + 1
    → t + 1 < 2 ^ 31
    → sources + 1 < 2 ^ 31
    → 0 < sources
    → ((Word.decrement_token_ref w).0 ≡ pack (counted t' sources))
      × ((Word.decrement_token_ref w).1 ≡ false)
dropped_token w t t' sources e next t_room s_room some_source =
    rw (e, given_back) (ap (λ x. pack (counted x sources)) (omega arith), ground arith)
  where
    given_back :
        Word.decrement_token_ref (pack (counted t sources))
        ≡ (pack (counted (t - 1) sources), (t == 1) && (sources == 0))
    given_back = decrement_token_of_pack (counted t sources) (t_room, s_room) (omega arith)

added_source :
    (w t sources : ℕ)
    → w ≡ pack (counted t sources)
    → t + 1 < 2 ^ 31
    → sources + 1 < 2 ^ 31
    → Word.increment_source_ref w ≡ pack (counted t (sources + 1))
added_source w t sources e t_room s_room =
    rw e ((increment_of_pack (counted t sources) (t_room, s_room)).1)

pub tokens-add_token : (p : Option ℕ) (o : Objects) → (add_token p o).tokens ≡ o.tokens
unfolding add_token
tokens-add_token none o = refl
tokens-add_token (some a) o = refl

pub sources-add_source : (p : Option ℕ) (o : Objects) → (add_source p o).sources ≡ o.sources
unfolding add_source
sources-add_source none o = refl
sources-add_source (some a) o = refl

module _ (n : ℕ) (few : n + 4 < 2 ^ 31) where
  few_tokens : (k : ℕ) (tokens : ℕ → Option ℕ) → total (points_to k) n tokens ≤ n
  few_tokens k tokens = total-le (points_to k) n tokens (points_to-le k)

  -- A token object and the temporary exchange their pointers.
  pub set_token-Inv :
      (o : Objects) (temp : Option ℕ) (i : ℕ)
      → i < n
      → Inv n o temp
      → Inv n (set_token i temp o) (o.tokens i)
  set_token-Inv o temp i lt inv room = record {
    tokens_made = λ j. elim (Bool-cases (i == j)) [
      | inl here ↦ rw here f.temp_made
      | inr other ↦ rw other (f.tokens_made j)
    ];
    sources_made = f.sources_made;
    temp_made = f.tokens_made i;
    right = λ k made.
        let r = f.right k made in
        record {
          alive = r.alive;
          sources = r.sources;
          some_source = r.some_source;
          few_sources = r.few_sources;
          word = omega (arith, r.word, total-update (points_to k) n o.tokens i temp lt);
        };
  }
    where
      f : Facts n o temp
      f = inv room

  pub set_source-Inv :
      (o : Objects) (temp p : Option ℕ) (i : ℕ)
      → (o.additions + 2 < 2 ^ 31 → IsMade o.made p)
      → Inv n o temp
      → Inv n (set_source i p o) temp
  set_source-Inv o temp p i p_made inv room = record {
    tokens_made = f.tokens_made;
    sources_made = λ j. elim (Bool-cases (i == j)) [
      | inl here ↦ rw here (p_made room)
      | inr other ↦ rw other (f.sources_made j)
    ];
    temp_made = f.temp_made;
    right = λ k made.
        let r = f.right k made in
        record {
          alive = r.alive;
          sources = r.sources;
          some_source = r.some_source;
          few_sources = r.few_sources;
          word = r.word;
        };
  }
    where
      f : Facts n o temp
      f = inv room

  -- The temporary comes to be, as a copy.
  pub add_token-Inv :
      (o : Objects) (p : Option ℕ)
      → (o.additions + 2 < 2 ^ 31 → IsMade o.made p)
      → Inv n o none
      → Inv n (add_token p o) p
  unfolding add_token
  add_token-Inv o none p_made inv room = inv room
  add_token-Inv o (some a) p_made inv room = record {
    tokens_made = f.tokens_made;
    sources_made = f.sources_made;
    temp_made = p_made room;
    right = λ k made.
        let r = f.right k made in
        let fits : total (points_to k) n o.tokens ≤ n = few_tokens k o.tokens in
        record {
          alive = r.alive;
          sources = r.sources;
          some_source = r.some_source;
          few_sources = r.few_sources;
          word = elim (Bool-cases (a == k)) [
            | inl here ↦
                let e : a ≡ k = ground arith in
                rw here (
                  added_token (o.words a) (total (points_to k) n o.tokens + 0)
                    (total (points_to k) n o.tokens + 1) r.sources (ap o.words e ∙ r.word)
                    (omega arith) (omega arith) (omega arith))
            | inr other ↦ rw other (r.word)
          ];
        };
  }
    where
      f : Facts n o none
      f = inv room

  -- The temporary goes.
  pub drop_token-Inv : (o : Objects) (p : Option ℕ) → Inv n o p → Inv n (drop_token p o) none
  unfolding drop_token
  drop_token-Inv o none inv room = inv room
  drop_token-Inv o (some a) inv room = record {
    tokens_made = f.tokens_made;
    sources_made = f.sources_made;
    temp_made = λ k e. cc;
    right = λ k made. elim (Bool-cases (a == k)) [
      | inl here ↦
          let e : a ≡ k = ground arith in
          let r = f.right k made in
          let fits : total (points_to k) n o.tokens ≤ n = few_tokens k o.tokens in
          let one : points_to k (some a) ≡ 1 = ground arith in
          let next =
            dropped_token (o.words a) (total (points_to k) n o.tokens + points_to k (some a))
              (total (points_to k) n o.tokens + 0) r.sources (ap o.words e ∙ r.word) (omega arith)
              (omega arith) (omega arith) r.some_source in
          record {
            alive = rw here next.1;
            sources = r.sources;
            some_source = r.some_source;
            few_sources = r.few_sources;
            word = rw here next.0;
          }
      | inr other ↦
          let r = f.right k made in
          let not_it : points_to k (some a) ≡ 0 = ground arith in
          record {
            alive = rw other r.alive;
            sources = r.sources;
            some_source = r.some_source;
            few_sources = r.few_sources;
            word = rw other (r.word ∙ ap (λ t. pack (counted t r.sources)) (omega (arith, not_it)));
          }
    ];
  }
    where
      f : Facts n o (some a)
      f = inv room

  pub add_source-Inv :
      (o : Objects) (p temp : Option ℕ) → Inv n o temp → Inv n (add_source p o) temp
  unfolding add_source
  add_source-Inv o none temp inv room = inv room
  add_source-Inv o (some a) temp inv room = record {
    tokens_made = f.tokens_made;
    sources_made = f.sources_made;
    temp_made = f.temp_made;
    right = λ k made. elim (Bool-cases (a == k)) [
      | inl here ↦
          let e : a ≡ k = ground arith in
          let r = f.right k made in
          let fits : total (points_to k) n o.tokens ≤ n = few_tokens k o.tokens in
          let small : points_to k temp ≤ 1 = points_to-le k temp in
          record {
            alive = r.alive;
            sources = r.sources + 1;
            some_source = omega arith;
            few_sources = omega (arith, r.few_sources);
            word = rw here (
                added_source (o.words a) (total (points_to k) n o.tokens + points_to k temp)
                  r.sources (ap o.words e ∙ r.word) (omega arith)
                  (omega (arith, r.few_sources, room)));
          }
      | inr other ↦
          let r = f.right k made in
          record {
            alive = r.alive;
            sources = r.sources;
            some_source = r.some_source;
            few_sources = omega (arith, r.few_sources);
            word = rw other r.word;
          }
    ];
  }
    where
      f : Facts n o temp
      f = inv (omega (arith, room))
