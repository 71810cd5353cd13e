-- ===== src/Boot.antt =====
-- source/boot: the descriptor tables of the processor and what the boot loader tells of the memory.
pub mod Gdt
pub mod Idt
pub mod Multiboot
