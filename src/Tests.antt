-- ===== src/Tests.antt =====
-- Runs of the readers on small images, and the theorems at inputs that meet their hypotheses.
mod Vdi
mod Vmdk
mod Vma
mod Dirs
mod Layer
mod Lz4
mod Parallels
mod Qed
mod Qcow
mod Sparse
mod Lvm
mod Scanner
mod Superlp
