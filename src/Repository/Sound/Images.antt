-- ===== src/Repository/Sound/Images.antt =====
-- The statements on images keep the tables sound.
use casper_cloud.Prelude.{
  ◌≢◌, ◌==◌, arith, Text, exists, delete, select-cons, select-update, select-delete, Bool-cases,
  inl, inr,
}
use casper_cloud.Data.{Uuid, Project, Image, Instance, Db}
use casper_cloud.Exec.Keeps.{Kept}
use casper_cloud.Repository.Kept.{Kept-one_row}
use casper_cloud.Repository.Images.{is_image, create_image, update_image, delete_image}
use casper_cloud.Repository.Sound.{Sound}
use casper_cloud.Repository.Sound.Change.{with_images}

module _ (own : Uuid → Uuid) (p q : Uuid) (ne : p ≢ q) (d₀ d : Db) (h : Sound own q d₀ d) where
  pub create_image-Sound :
      (name url text : Text) → Kept (Sound own q d₀) (create_image p name url text d)
  unfolding create_image
  create_image-Sound name url text =
      elim (Bool-cases (exists (λ (r : Project). r.id == p) d.projects)) [
        | inl t ↦ rw t (
            with_images own q d₀ d h _
              (select-cons (λ (r : Image). r.project_id == q) _ d.images (ground arith)))
        | inr t ↦ rw t tt
      ]

  pub update_image-Sound :
      (i : Uuid) (name url text : Text) → Kept (Sound own q d₀) (update_image p i name url text d)
  unfolding update_image
  update_image-Sound i name url text = Kept-one_row (Sound own q d₀) _ _ _ (
      with_images own q d₀ d h _ (
        select-update (λ (r : Image). r.project_id == q) (is_image p i) _ (λ r t. ground arith)
          d.images))

  pub delete_image-Sound : (i : Uuid) → Kept (Sound own q d₀) (delete_image p i d)
  unfolding delete_image
  delete_image-Sound i =
      let kept = with_images own q d₀ d h (delete (is_image p i) d.images) (
        select-delete (λ (r : Image). r.project_id == q) (is_image p i) (λ r t. ground arith)
          d.images) in
      elim (Bool-cases (exists (is_image p i) d.images)) [
        | inl t ↦ elim (Bool-cases (exists (λ (r : Instance). r.image_id == i) d.instances)) [
          | inl u ↦ rw (t, u) tt
          | inr u ↦ rw (t, u) kept
        ]
        | inr t ↦ rw t tt
      ]
