-- ===== src/Mvcc/Three.antt =====
-- Three trees in one write transaction of crates/gemgraph-mvcc/src/txn.rs.
use mathlib.Core.Path.{subst}
use gemgraph.Base.{ℕ, ◌≤◌, ◌<◌, ◌≢◌, sym, List, length, some, Result, All}
use gemgraph.BTree.Leaf.{upsert}
use gemgraph.BTree.Tree.Model.{Tree, pages_of, LeafFits, descend}
use gemgraph.Mvcc.{MvccFailure}
use gemgraph.Mvcc.WriteTxn.{WriteTxn, insert}
use gemgraph.Mvcc.InTxn.{InTxn}
use gemgraph.Mvcc.Writes.{Written, insert-Written}
use gemgraph.Mvcc.Trees.{Apart, Apart-swap, TxnReads, TxnReads-InTxn, insert-keeps}

module _ (k : ℕ) (catalog : Tree k) (catalog_root : ℕ) where
  -- A transaction that has the catalog and three trees that share no page.
  pub record HasThree (id1 h1 : ℕ) (tree1 : Tree h1) (id2 h2 : ℕ) (tree2 : Tree h2) (id3 h3 : ℕ)
      (tree3 : Tree h3) (t : WriteTxn) : Type 0 where
    pub in1 : InTxn k catalog catalog_root id1 h1 tree1 t
    pub in2 : InTxn k catalog catalog_root id2 h2 tree2 t
    pub in3 : InTxn k catalog catalog_root id3 h3 tree3 t
    pub ids : (id2 ≢ id1) × (id3 ≢ id1) × (id3 ≢ id2)
    pub apart : Apart h1 tree1 h2 tree2 × Apart h1 tree1 h3 tree3 × Apart h2 tree2 h3 tree3

  module _ (id1 h1 : ℕ) (tree1 : Tree h1) (id2 h2 : ℕ) (tree2 : Tree h2) (id3 h3 : ℕ)
      (tree3 : Tree h3) where
    pub HasThree-turn :
        (t : WriteTxn)
        → HasThree id1 h1 tree1 id2 h2 tree2 id3 h3 tree3 t
        → HasThree id2 h2 tree2 id3 h3 tree3 id1 h1 tree1 t
    HasThree-turn t s =
        let (n1, n2, n3) = s.ids in
        let (a1, a2, a3) = s.apart in
        record {
          in1 = s.in2;
          in2 = s.in3;
          in3 = s.in1;
          ids = (n3, (λ e. n1 (sym e)), (λ e. n2 (sym e)));
          apart = (a3, Apart-swap h1 tree1 h2 tree2 a1, Apart-swap h1 tree1 h3 tree3 a2);
        }

    pub HasThree-reads :
        {A : Type 0} (t : WriteTxn) (a : A) (r : Result A MvccFailure × WriteTxn)
        → TxnReads t a r
        → HasThree id1 h1 tree1 id2 h2 tree2 id3 h3 tree3 t
        → HasThree id1 h1 tree1 id2 h2 tree2 id3 h3 tree3 r.1
    HasThree-reads t a r reads s = record {
      in1 = TxnReads-InTxn k catalog catalog_root id1 h1 tree1 t a r reads s.in1;
      in2 = TxnReads-InTxn k catalog catalog_root id2 h2 tree2 t a r reads s.in2;
      in3 = TxnReads-InTxn k catalog catalog_root id3 h3 tree3 t a r reads s.in3;
      ids = s.ids;
      apart = s.apart;
    }

    -- An insertion into the first tree.
    pub HasThree-insert :
        (fuel : ℕ) (key value : List ℕ) (t : WriteTxn)
        → k < fuel
        → h1 < fuel
        → length key ≤ 1000
        → length value ≤ 1000
        → HasThree id1 h1 tree1 id2 h2 tree2 id3 h3 tree3 t
        → LeafFits (upsert key value (descend h1 key tree1))
        → (w : Written k catalog catalog_root id1 h1 tree1 t key
            (some value)
            tt
            (insert fuel id1 key value t))
          × HasThree id1 h1 (w.tree') id2 h2 tree2 id3 h3 tree3 (insert fuel id1 key value t).1
    HasThree-insert fuel key value t enough enough1 short_key short_value s fits =
        let w =
          insert-Written fuel k catalog catalog_root id1 h1 tree1 enough key value t enough1
            short_key short_value s.in1 fits in
        let (n1, n2, n3) = s.ids in
        let (a1, a2, a3) = s.apart in
        (
          w,
          record {
            in1 = w.in_txn;
            in2 =
                insert-keeps fuel k catalog catalog_root id1 h1 tree1 enough id2 h2 tree2 key value
                  t enough1 short_key short_value s.in1 fits n1 a1 s.in2;
            in3 =
                insert-keeps fuel k catalog catalog_root id1 h1 tree1 enough id3 h3 tree3 key value
                  t enough1 short_key short_value s.in1 fits n2 a2 s.in3;
            ids = s.ids;
            apart = (
              subst (λ ps. All (λ id. All (λ x. id ≢ x) ps) (pages_of h2 tree2)) (sym w.same_pages)
                  a1,
              subst (λ ps. All (λ id. All (λ x. id ≢ x) ps) (pages_of h3 tree3)) (sym w.same_pages)
                  a2,
              a3,
            );
          },
        )
