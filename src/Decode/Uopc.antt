-- ===== src/Decode/Uopc.antt =====
-- src/decode.cpp, lines 7 to 82: the codes that a micro-operation's `uopc` holds.
use boom.Base.{ℕ}

abbrev pub nop : ℕ
nop = 0

abbrev pub add : ℕ
add = 1

abbrev pub sub : ℕ
sub = 2

abbrev pub sll : ℕ
sll = 3

abbrev pub slt : ℕ
slt = 4

abbrev pub sltu : ℕ
sltu = 5

abbrev pub xor : ℕ
xor = 6

abbrev pub srl : ℕ
srl = 7

abbrev pub sra : ℕ
sra = 8

abbrev pub or : ℕ
or = 9

abbrev pub and : ℕ
and = 10

abbrev pub addw : ℕ
addw = 11

abbrev pub subw : ℕ
subw = 12

abbrev pub sllw : ℕ
sllw = 13

abbrev pub srlw : ℕ
srlw = 14

abbrev pub sraw : ℕ
sraw = 15

abbrev pub mul : ℕ
mul = 16

abbrev pub mulh : ℕ
mulh = 17

abbrev pub mulhsu : ℕ
mulhsu = 18

abbrev pub mulhu : ℕ
mulhu = 19

abbrev pub mulw : ℕ
mulw = 20

abbrev pub div : ℕ
div = 21

abbrev pub divu : ℕ
divu = 22

abbrev pub rem : ℕ
rem = 23

abbrev pub remu : ℕ
remu = 24

abbrev pub divw : ℕ
divw = 25

abbrev pub divuw : ℕ
divuw = 26

abbrev pub remw : ℕ
remw = 27

abbrev pub remuw : ℕ
remuw = 28

abbrev pub jal : ℕ
jal = 29

abbrev pub jalr : ℕ
jalr = 30

abbrev pub beq : ℕ
beq = 31

abbrev pub bne : ℕ
bne = 32

abbrev pub blt : ℕ
blt = 33

abbrev pub bge : ℕ
bge = 34

abbrev pub bltu : ℕ
bltu = 35

abbrev pub bgeu : ℕ
bgeu = 36

abbrev pub lui : ℕ
lui = 37

abbrev pub auipc : ℕ
auipc = 38

abbrev pub lb : ℕ
lb = 39

abbrev pub lh : ℕ
lh = 40

abbrev pub lw : ℕ
lw = 41

abbrev pub ld : ℕ
ld = 42

abbrev pub lbu : ℕ
lbu = 43

abbrev pub lhu : ℕ
lhu = 44

abbrev pub lwu : ℕ
lwu = 45

abbrev pub sb : ℕ
sb = 46

abbrev pub sh : ℕ
sh = 47

abbrev pub sw : ℕ
sw = 48

abbrev pub sd : ℕ
sd = 49

abbrev pub addi : ℕ
addi = 50

abbrev pub slli : ℕ
slli = 51

abbrev pub slti : ℕ
slti = 52

abbrev pub sltiu : ℕ
sltiu = 53

abbrev pub xori : ℕ
xori = 54

abbrev pub srli : ℕ
srli = 55

abbrev pub srai : ℕ
srai = 56

abbrev pub ori : ℕ
ori = 57

abbrev pub andi : ℕ
andi = 58

abbrev pub addiw : ℕ
addiw = 59

abbrev pub slliw : ℕ
slliw = 60

abbrev pub srliw : ℕ
srliw = 61

abbrev pub sraiw : ℕ
sraiw = 62

abbrev pub fence : ℕ
fence = 63

abbrev pub fencei : ℕ
fencei = 64

abbrev pub ecall : ℕ
ecall = 65

abbrev pub ebreak : ℕ
ebreak = 66

abbrev pub csrrw : ℕ
csrrw = 67

abbrev pub csrrs : ℕ
csrrs = 68

abbrev pub csrrc : ℕ
csrrc = 69

abbrev pub csrrwi : ℕ
csrrwi = 70

abbrev pub csrrsi : ℕ
csrrsi = 71

abbrev pub csrrci : ℕ
csrrci = 72

abbrev pub mret : ℕ
mret = 118

abbrev pub wfi : ℕ
wfi = 120

abbrev pub illegal : ℕ
illegal = 255
