-- ===== src/Nucleus/Unready.antt =====
-- A process that is taken out of the ready queue by terminateProgeny: the nucleus stays in order.
use jae_so.Common.Without.{without, In-without}
use jae_so.Common.{ℕ, ◌≡◌, ◌≢◌, refl, sym, ap, ◌∙◌, List, map, In}
use jae_so.Memory.{Loc, p_list, p_siblings, s_link, ready_queue, Links}
use jae_so.Clist.Ring.{IsClist, IsClist-agree_map}
use jae_so.Clist.Map.{Distinct-of_map}
use jae_so.Kernel.Machine.{Kernel}
use jae_so.Asl.Release.{Distinct-of-IsClist}
use jae_so.Asl.Head.{Ascending-agree}
use jae_so.Nucleus.{View, IsNucleus, Place, blocked}

abbrev pub unready_view : ℕ → View → View
unready_view p v = record v { ready_list = without p v.ready_list }

-- The links when the ready queue has lost `p`.
pub record Unready (v : View) (k : Kernel) (p : ℕ) (σ : Links) : Type 0 where
  pub ready : IsClist σ ready_queue (map p_list (without p v.ready_list))
  pub same :
      (b : Loc) → b ≢ ready_queue → ((x : ℕ) → In x v.ready_list → b ≢ p_list x) → σ b ≡ k.links b

module _ {v : View} {k : Kernel} {p : ℕ} {σ : Links} (n : IsNucleus v k) (u : Unready v k p σ) where
  pub remaining : (x : ℕ) → In x (without p v.ready_list) → In x v.ready_list × (x ≢ p)
  remaining x i =
      In-without p x v.ready_list
        (Distinct-of_map p_list v.ready_list
          (Distinct-of-IsClist k.links ready_queue (map p_list v.ready_list) n.ready))
        i

  others :
      (h : Loc) (g : ℕ → Loc) (ys : List ℕ)
      → h ≢ ready_queue
      → ((x : ℕ) → h ≢ p_list x)
      → ((x : ℕ) → g x ≢ ready_queue)
      → ((x y : ℕ) → In x ys → In y v.ready_list → g x ≢ p_list y)
      → IsClist k.links h (map g ys)
      → IsClist σ h (map g ys)
  others h g ys n1 n2 n3 n4 =
      IsClist-agree_map k.links σ h g ys (u.same h n1 (λ x i. n2 x))
        λ x i. u.same (g x) (n3 x) (λ y j. n4 x y i j)

  -- Processes of two lists are different, since they are in different places.
  other_place :
      (w : Place) (x y : ℕ)
      → v.place x ≡ w
      → w ≢ Place.ready
      → In y v.ready_list
      → p_list x ≢ p_list y
  other_place w x y e m j q = let r : x ≡ y = cc in m (sym e ∙ ap v.place r ∙ n.at_ready y j)

  pub unready-IsNucleus : IsNucleus (unready_view p v) (record k { links = σ })
  unready-IsNucleus = record {
    active = others _ s_link v.active (λ e. cc) (λ x e. cc) (λ x e. cc) (λ x y i j e. cc) n.active;
    ascending = Ascending-agree k (record k { links = σ }) v.active refl n.ascending;
    queue = λ d i.
        others _ p_list (v.queue d) (λ e. cc) (λ x e. cc) (λ x e. cc)
          (λ x y a j. other_place (blocked d) x y (n.at_queue d x i a) (λ e. cc) j) (n.queue d i);
    busy = n.busy;
    waits = n.waits;
    semds = others _ s_link v.semds (λ e. cc) (λ x e. cc) (λ x e. cc) (λ x y i j e. cc) n.semds;
    apart = n.apart;
    total = n.total;
    ready = u.ready;
    blocks =
        others _ p_list v.blocks (λ e. cc) (λ x e. cc) (λ x e. cc)
          (λ x y i j. other_place Place.unused x y (n.at_blocks x i) (λ e. cc) j) n.blocks;
    at_ready = λ x i. n.at_ready x (remaining x i).0;
    at_queue = n.at_queue;
    at_blocks = n.at_blocks;
    at_current = n.at_current;
    bound = n.bound;
    count = n.count;
    family = λ r.
        others _ p_siblings (v.children r) (λ e. cc) (λ x e. cc) (λ x e. cc) (λ x y i j e. cc)
          (n.family r);
    parents = n.parents;
    orphans = n.orphans;
    listed = n.listed;
    childless = n.childless;
    levels = n.levels;
    small = n.small;
  }
