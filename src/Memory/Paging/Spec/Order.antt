-- ===== src/Memory/Paging/Spec/Order.antt =====
-- The order of changes to different pages does not matter.
use rainstorm_os.Base.{ℕ, ◌≡◌, refl, true, false, List, [], ◌∷◌, arith, ◌∙◌, sym, Ends, Ends-mono}
use rainstorm_os.Memory.Paging.{Machine}
use rainstorm_os.Memory.Paging.Grown.{OutOfMemory}
use rainstorm_os.Memory.Paging.Spec.{
  Space, Change, touches, changed, changed_by, perform_all, AllSound,
}
use rainstorm_os.Memory.Paging.Spec.Refines.{Represents, perform_all-Represents}

-- No page is changed by both.
abbrev pub Apart : Change → Change → Type 0
Apart c d = (page : ℕ) → touches c page ≡ true → touches d page ≡ false

-- A sequence of changes after some exchanges of neighbours that are apart.
pub data Reordered : List Change → List Change → Type 0 where
  as_it_was : {cs : List Change} → Reordered cs cs
  later : {c : Change} {cs ds : List Change} → Reordered cs ds → Reordered (c ∷ cs) (c ∷ ds)
  exchanged : {c d : Change} {cs : List Change} → Apart c d → Reordered (c ∷ d ∷ cs) (d ∷ c ∷ cs)
  after : {cs ds es : List Change} → Reordered cs ds → Reordered ds es → Reordered cs es

changed_by-same :
    (cs : List Change) {s t : Space}
    → ((page : ℕ) → s page ≡ t page)
    → (page : ℕ) → changed_by cs s page ≡ changed_by cs t page
unfolding changed_by
changed_by-same [] same page = same page
changed_by-same (c ∷ cs) same page = changed_by-same cs (λ p. ground (arith, same p)) page

changed-Apart :
    (c d : Change) (s : Space)
    → Apart c d
    → (page : ℕ) → changed d (changed c s) page ≡ changed c (changed d s) page
changed-Apart c d s apart page = ground (arith, apart page)

changed_by-Reordered :
    {cs ds : List Change}
    → Reordered cs ds
    → (s : Space) (page : ℕ) → changed_by cs s page ≡ changed_by ds s page
unfolding changed_by
changed_by-Reordered as_it_was s page = refl
changed_by-Reordered (later {c = c} r) s page = changed_by-Reordered r (changed c s) page
changed_by-Reordered (exchanged {c = c} {d = d} {cs = cs} apart) s page =
    changed_by-same cs (changed-Apart c d s apart) page
changed_by-Reordered (after r r') s page =
    changed_by-Reordered r s page ∙ changed_by-Reordered r' s page

AllSound-Reordered : {cs ds : List Change} → Reordered cs ds → AllSound cs → AllSound ds
AllSound-Reordered as_it_was sound = sound
AllSound-Reordered (later r) (h, sound) = (h, AllSound-Reordered r sound)
AllSound-Reordered (exchanged apart) (h, (h', sound)) = (h', (h, sound))
AllSound-Reordered (after r r') sound = AllSound-Reordered r' (AllSound-Reordered r sound)

-- The calls of a sequence, made in another order in which only calls on different pages have
-- changed places, lead to tables that represent what the sequence itself makes of the address space;
-- or a call panics with no frame free.
pub perform_all-Reordered :
    {cs ds : List Change} {root : ℕ} {s : Space} {m : Machine}
    → Reordered cs ds
    → Represents root s m
    → AllSound cs
    → Ends (λ _ m'. Represents root (changed_by cs s) m') OutOfMemory (perform_all root ds m)
perform_all-Reordered {ds = ds} {s = s} order r sound =
    Ends-mono (perform_all-Represents ds r (AllSound-Reordered order sound))
      (λ _ m' r'. record {
        level' = r'.level';
        path' = r'.path';
        tree = r'.tree;
        agrees = λ page h. r'.agrees page h ∙ sym (changed_by-Reordered order s page);
      })
      (λ _ _ q. q)
